-- ===== src/StopList/Part08.antt =====
-- Lines 1221 to 1370 of bkk_uds/bkk_stop_list.h.
use mathlib.Core.List.{List, [], ◌∷◌}
use bkk_api.StopList.Row.{BkkStop, row}

unfoldable pub stops_08 : List BkkStop
stops_08 =
    row "091289" "Kerecsen utca / Budapesti út" 47530963 19210719
    ∷ row "091338" "Benczúr utca" 47512428 19079600
    ∷ row "09134" "Pomáz" 47642749 19032657
    ∷ row "09134217" "Pomáz" 47642749 19032657
    ∷ row "09134218" "Pomáz" 47642749 19032657
    ∷ row "09142" "Szentendre" 47661038 19075607
    ∷ row "09142221" "Szentendre" 47661038 19075607
    ∷ row "09142222" "Szentendre" 47661038 19075607
    ∷ row "09142223" "Szentendre" 47661038 19075607
    ∷ row "09159" "Rómaifürdő" 47575685 19048568
    ∷ row "09159204" "Rómaifürdő" 47575685 19048568
    ∷ row "09159205" "Rómaifürdő" 47575685 19048568
    ∷ row "09175206" "Csillaghegy" 47585948 19044932
    ∷ row "09175207" "Csillaghegy" 47586272 19045078
    ∷ row "091799" "Budafok kocsiszín" 47440398 19036339
    ∷ row "091816" "Angyalföld vasútállomás" 47550363 19091315
    ∷ row "091817" "Angyalföld vasútállomás" 47549906 19090953
    ∷ row "091821" "Angyalföld vasútállomás" 47550037 19090853
    ∷ row "09183" "Békásmegyer" 47598091 19054599
    ∷ row "09183208" "Békásmegyer" 47598091 19054599
    ∷ row "09183209" "Békásmegyer" 47598091 19054599
    ∷ row "09191212" "Budakalász, Lenfonó" 47621692 19046912
    ∷ row "09191213" "Budakalász, Lenfonó" 47621863 19046592
    ∷ row "09209" "Szentistvántelep" 47628802 19043332
    ∷ row "09209214" "Szentistvántelep" 47628802 19043332
    ∷ row "09209215" "Szentistvántelep" 47628802 19043332
    ∷ row "09217" "Pannóniatelep" 47652191 19064901
    ∷ row "09217219" "Pannóniatelep" 47652191 19064901
    ∷ row "09217220" "Pannóniatelep" 47652191 19064901
    ∷ row "09220" "Boráros tér" 47479179 19066433
    ∷ row "09220224" "Boráros tér" 47479179 19066433
    ∷ row "09220225" "Boráros tér" 47479179 19066433
    ∷ row "09221" "Müpa - Nemzeti Színház" 47469554 19070098
    ∷ row "09221226" "Müpa - Nemzeti Színház" 47469554 19070098
    ∷ row "09221227" "Müpa - Nemzeti Színház" 47469554 19070098
    ∷ row "09223" "Szabadkikötő" 47444476 19071612
    ∷ row "09223228" "Szabadkikötő" 47444476 19071612
    ∷ row "09223229" "Szabadkikötő" 47444476 19071612
    ∷ row "09224" "Szent Imre tér" 47431322 19067656
    ∷ row "09224230" "Szent Imre tér" 47431322 19067656
    ∷ row "09224231" "Szent Imre tér" 47431322 19067656
    ∷ row "09225" "Karácsony Sándor utca" 47426802 19067283
    ∷ row "09225232" "Karácsony Sándor utca" 47426802 19067283
    ∷ row "09225233" "Karácsony Sándor utca" 47426802 19067283
    ∷ row "09226" "Csepel" 47421171 19065803
    ∷ row "09226234" "Csepel" 47421171 19065803
    ∷ row "09226543" "Csepel" 47421171 19065803
    ∷ row "092969" "Kosztolányi Dezső tér" 47475053 19040098
    ∷ row "093021" "Kelenföld vasútállomás M" 47464752 19023003
    ∷ row "093186" "Művész út (Óvoda)" 47496916 18984414
    ∷ row "094505" "Liszt Ferenc Airport 2" 47432703 19261165
    ∷ row "094720" "Balzac utca" 47513845 19058426
    ∷ row "096830" "Jogar utca" 47435122 19013129
    ∷ row "096990" "Széchenyi-hegy, Gyermekvasút" 47494304 18978233
    ∷ row "096996" "Széchenyi-hegy, Gyermekvasút" 47495204 18979240
    ∷ row "096999" "Széchenyi-hegy, Gyermekvasút" 47494232 18977968
    ∷ row "097847" "Mogyoródi út, VB telephely" 47507317 19113635
    ∷ row "098518" "Diósd, Kaktusz utca" 47415027 18951217
    ∷ row "098526" "Diósd, Kaktusz utca" 47414632 18951447
    ∷ row "098527" "Törökbálint, Yettel" 47430124 18935170
    ∷ row "098531" "Farkashegyi repülőtér" 47490163 18909369
    ∷ row "098532" "Farkashegyi repülőtér" 47489854 18909282
    ∷ row "098535" "Budaörs, Gábor Dénes körút" 47470912 18901412
    ∷ row "098536" "Budaörs, Gábor Dénes körút" 47471798 18901757
    ∷ row "098538" "Raktárbázis" 47464025 18900557
    ∷ row "098540" "Raktárbázis" 47465083 18900849
    ∷ row "098674" "Baross Gábor utca" 47436562 18915588
    ∷ row "098882" "Budakeszi, Tesco áruház" 47499521 18915018
    ∷ row "098921" "Gubacsi út VB telephely" 47465388 19086774
    ∷ row "099012" "Budakeszi, Tesco áruház" 47499548 18915217
    ∷ row "099343" "Kossuth Lajos tér M" 47506003 19049645
    ∷ row "099629" "Bikás park M" 47463769 19032417
    ∷ row "099630" "Bikás park M" 47463625 19033306
    ∷ row "099631" "Bártfai utca" 47464236 19028902
    ∷ row "099632" "Bártfai utca" 47464110 19029632
    ∷ row "099633" "Kelenföld vasútállomás M" 47464010 19023106
    ∷ row "099634" "Kelenföld vasútállomás M" 47464469 19023384
    ∷ row "099640" "Kőbánya-Kispest M" 47462272 19150446
    ∷ row "099678" "Svábhegy" 47497919 18989543
    ∷ row "100605" "Szemeretelep vasútállomás" 47444232 19213265
    ∷ row "100836" "Iglice utca / Jutas utca [9]" 47577709 19022351
    ∷ row "100837" "Kőpor köz / Jutas utca [7]" 47580955 19018321
    ∷ row "100838" "Kőpor köz / Jutas utca [7]" 47580658 19018614
    ∷ row "101178" "Szigetszentmiklós, városháza" 47348981 19045586
    ∷ row "101179" "Rákóczi utca" 47348872 19050468
    ∷ row "101180" "Föveny utca" 47350230 19057828
    ∷ row "101181" "Béke utca" 47352019 19062635
    ∷ row "101182" "Teleki utca" 47353773 19059324
    ∷ row "101183" "Sport utca" 47352092 19056415
    ∷ row "101184" "Dunaharaszti utca" 47349496 19053633
    ∷ row "101185" "Sport Vendéglő" 47348252 19049714
    ∷ row "102119" "Liszt Ferenc Airport 2, tárolótér" 47428522 19264289
    ∷ row "102276" "Keleti pályaudvar" 47499731 19082082
    ∷ row "102283" "Wein János út" 47456524 19071027
    ∷ row "102568" "Rózsakert utca / Minta utca" 47403146 19010169
    ∷ row "102569" "Rózsakert utca / Minta utca" 47403776 19011043
    ∷ row "102592" "Karolina út (Sárbogárdi út)" 47472818 19034351
    ∷ row "102825" "Örs vezér tere M+H" 47505315 19136268
    ∷ row "102861" "Nyugati pályaudvar M" 47510757 19056308
    ∷ row "103053" "Budaörsi lakótelep" 47455747 18941160
    ∷ row "103386" "Balatoni út / Háros utca" 47433069 19005455
    ∷ row "103387" "Balatoni út / Háros utca" 47432125 19005257
    ∷ row "103388" "Balatoni út / Háros utca" 47431890 19004674
    ∷ row "103389" "Balatoni út / Háros utca" 47431783 19004926
    ∷ row "103897" "Liget sor" 47488054 19244774
    ∷ row "105507" "Cargo City" 47430323 19270282
    ∷ row "106377" "Újpest-városkapu M (Temesvári utca)" 47559667 19082511
    ∷ row "106387" "Üröm, Kert utca" 47600418 19007120
    ∷ row "106390" "KÖKI-Regina tároló" 47464388 19142967
    ∷ row "107474" "Kvassay híd" 47457434 19071039
    ∷ row "107799" "Budakeszi temető" 47514028 18922403
    ∷ row "109234" "Kőbányai út,MOL töltőállomás" 47482459 19124160
    ∷ row "109489" "Pilisborosjenő, iskola" 47602332 19002226
    ∷ row "109518" "Vihorlát út" 47389236 19100043
    ∷ row "109519" "Vihorlát út" 47389119 19100176
    ∷ row "109539" "Csillebérc, Gyermekvasút tároló" 47497687 18963730
    ∷ row "109633" "Kőris utca (Korányi Sándor utca)" 47486181 19089231
    ∷ row "109634" "Kőris utca" 47487602 19088343
    ∷ row "109635" "Elnök utca" 47481314 19092955
    ∷ row "109636" "Elnök utca" 47481773 19092809
    ∷ row "109728" "Párkány utca" 47534409 19062404
    ∷ row "109729" "Dagály utcai lakótelep" 47536545 19065164
    ∷ row "109849" "Doboz utca" 47602193 19052910
    ∷ row "109884" "Ludovika Aréna" 47484067 19090861
    ∷ row "109885" "Ludovika Aréna" 47483995 19091100
    ∷ row "109949" "Vágány u., MOL töltőállomás" 47522340 19081139
    ∷ row "110010" "Vérmező tároló" 47499255 19027605
    ∷ row "110321" "Normafa, látogatóközpont" 47500739 18967441
    ∷ row "110322" "Normafa, látogatóközpont" 47500578 18967972
    ∷ row "110369" "Honfoglalás park" 47530798 19213588
    ∷ row "110452" "Nemzetközi Posta Kicserélő Központ" 47427629 19265757
    ∷ row "110870" "Gödöllő H" 47591508 19357892
    ∷ row "111564" "Pilisborosjenő, Újtelep" 47604851 18993613
    ∷ row "112336" "Horváth utca" 47511545 19034072
    ∷ row "112880" "Szigetszentmiklós, Szabadság utca" 47358296 19031884
    ∷ row "114754" "Pilisborosjenői elágazás" 47586568 19006251
    ∷ row "115226" "Szabadkikötő, D épületek" 47451711 19070971
    ∷ row "116270" "Pilisborosjenő, orvosi rendelő" 47607928 18990849
    ∷ row "116271" "Akadémiaújtelep vasútállomás" 47485166 19223003
    ∷ row "116272" "Akadémiaújtelep vasútállomás" 47485456 19221597
    ∷ row "116310" "Patak utca" 47503019 18921991
    ∷ row "117450" "Őrjárat utca" 47540928 19125188
    ∷ row "117574" "Cimbalom utca" 47524761 19023120
    ∷ row "118346" "Nyugati pályaudvar M (Podmaniczky utca)" 47509276 19058597
    ∷ row "118693" "Budakeszi, Fagyártmánytelep" 47506157 18914683
    ∷ row "118694" "Budakeszi, Fagyártmánytelep" 47505990 18914599
    ∷ row "118740" "Budakeszi, Vastagtanya" 47501050 18868534
    ∷ row "118741" "Budakeszi, Vastagtanya" 47500983 18868042
    ∷ row "118744" "Páty, Mézeshegy" 47506910 18854380
    ∷ row "118745" "Páty, Mézeshegy" 47506576 18854798
    ∷ []
