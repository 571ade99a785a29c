-- ===== src/StopList/Part00.antt =====
-- Lines 21 to 170 of bkk_uds/bkk_stop_list.h.
use mathlib.Core.List.{List, [], ◌∷◌}
use bkk_api.StopList.Row.{BkkStop, row}

unfoldable pub stops_00 : List BkkStop
stops_00 =
    row "002133" "Örs vezér tere M+H, déli tárolótér" 47500366 19135700
    ∷ row "002138" "Kőbánya alsó vasútállomás" 47483139 19127891
    ∷ row "003002" "Puskás Ferenc Stadion M" 47500368 19103406
    ∷ row "003105" "Bécsi út / Vörösvári út" 47548817 19029722
    ∷ row "004716" "ÉD metró járműtelep,porta" 47469651 19129090
    ∷ row "004948" "Metró ÉD járműtelep (kapu)" 47465239 19142612
    ∷ row "004952" "Metró KNY járműtelep (kapu)" 47502234 19132179
    ∷ row "005924" "Mill.FAV járműtelep (kapu)" 47518788 19093168
    ∷ row "006390" "Cinkota kocsiszín (kapu)" 47519365 19216995
    ∷ row "007177" "Csepel kocsiszín (kapu)" 47421449 19066161
    ∷ row "007675" "Dunaharaszti külső kocsiszín (kapu)" 47362643 19088375
    ∷ row "007762" "Szentendre kocsiszín (kapu)" 47658768 19072392
    ∷ row "007817" "Márta utca" 47429184 18929497
    ∷ row "007877" "Bíróság" 47519544 18978060
    ∷ row "007878" "Bíróság" 47519418 18978021
    ∷ row "007879" "Római úti lakótelep, Varsa utca" 47570840 19058436
    ∷ row "007880" "Bécsi út / Vörösvári út" 47547562 19028729
    ∷ row "007881" "Váradi utca" 47543722 19030125
    ∷ row "007882" "Váradi utca" 47542679 19029953
    ∷ row "007883" "Perényi út" 47545800 19029579
    ∷ row "007884" "Deák Ferenc tér M" 47497413 19055158
    ∷ row "007885" "József nádor tér (Vörösmarty tér M)" 47497476 19049623
    ∷ row "007887" "Mester utca / Ferenc körút" 47482310 19068795
    ∷ row "007888" "Mester utca / Ferenc körút" 47481497 19067865
    ∷ row "007890" "Mester utca / Ferenc körút" 47481671 19068782
    ∷ row "007897" "Kelenföld vasútállomás M" 47464581 19022964
    ∷ row "007900" "Maros utcai rendelőintézet" 47503724 19022401
    ∷ row "007902" "Újpest-városkapu M" 47558551 19078245
    ∷ row "007913" "526. sor" 47479274 19211295
    ∷ row "007914" "526. sor" 47479282 19211481
    ∷ row "007923" "Kele utca" 47431750 19173783
    ∷ row "007924" "Ültetvény utca" 47396895 19175423
    ∷ row "007927" "Ferihegy vasútállomás" 47438423 19222716
    ∷ row "007928" "Ferihegy vasútállomás" 47437667 19223377
    ∷ row "007930" "Savoyai Jenő tér (Törley tér)" 47430333 19036354
    ∷ row "007931" "Savoyai Jenő tér (Törley tér)" 47430369 19036792
    ∷ row "007942" "Pilisborosjenő, autóbusz-forduló" 47609102 18989684
    ∷ row "007949" "Kocsis Sándor út" 47574343 19013009
    ∷ row "007950" "Keleti pályaudvar M" 47501104 19082712
    ∷ row "007967" "Kelenföld vasútállomás M" 47465755 19021871
    ∷ row "007968" "Mogyoród útja" 47570602 19128267
    ∷ row "007972" "Hűvösvölgy" 47543009 18964481
    ∷ row "007974" "Hűvösvölgy" 47542605 18964773
    ∷ row "007975" "Hűvösvölgy" 47543243 18964281
    ∷ row "007976" "Hűvösvölgy" 47543264 18963995
    ∷ row "007977" "Hűvösvölgy" 47542968 18964195
    ∷ row "007978" "Hűvösvölgy" 47542707 18964355
    ∷ row "007979" "Vörösmarty utca M" 47507404 19066482
    ∷ row "007980" "Vörösmarty utca M" 47507413 19066787
    ∷ row "007995" "Jókai Mór utca" 47410696 19020671
    ∷ row "007996" "Budatétény vasútállomás (Campona)" 47405649 19013780
    ∷ row "007997" "Budatétény vasútállomás (Campona)" 47405972 19014129
    ∷ row "007998" "Budatétény vasútállomás (Campona)" 47405730 19014323
    ∷ row "007999" "Budatétény vasútállomás (Campona)" 47405702 19014155
    ∷ row "008003" "Budagyöngye" 47515894 18999506
    ∷ row "008005" "Móricz Zsigmond körtér M" 47477059 19047540
    ∷ row "008018" "Örs vezér tere M+H, új tárolótér" 47500933 19135714
    ∷ row "008021" "Örs vezér tere M+H" 47501965 19136232
    ∷ row "008022" "Örs vezér tere M+H" 47501517 19136333
    ∷ row "008023" "Örs vezér tere M+H" 47501472 19136134
    ∷ row "008024" "Örs vezér tere M+H" 47501148 19136213
    ∷ row "008025" "Örs vezér tere M+H" 47501778 19135922
    ∷ row "008026" "Örs vezér tere M+H" 47501355 19136028
    ∷ row "008028" "Örs vezér tere M+H" 47501112 19135882
    ∷ row "008029" "Örs vezér tere M+H" 47502111 19135697
    ∷ row "008030" "Örs vezér tere M+H" 47501742 19135604
    ∷ row "008036" "Kőbányai út 31." 47487461 19104252
    ∷ row "008037" "Kőbányai út 31." 47487452 19103721
    ∷ row "008040" "Tas vezér utca" 47478606 19040827
    ∷ row "008041" "Tas vezér utca" 47478849 19040827
    ∷ row "008047" "Lajosmizsei sorompó" 47450468 19161410
    ∷ row "008050" "Liptó utca" 47486100 19007031
    ∷ row "008051" "Liptó utca" 47486010 19007071
    ∷ row "008054" "Mexikói út" 47519658 19091078
    ∷ row "008055" "Széchenyi fürdő" 47517483 19080950
    ∷ row "008056" "Hősök tere" 47514259 19076845
    ∷ row "008057" "Bajza utca" 47511333 19072468
    ∷ row "008058" "Kodály körönd" 47509232 19069324
    ∷ row "008059" "Vörösmarty utca" 47507214 19066305
    ∷ row "008060" "Oktogon" 47505058 19063070
    ∷ row "008061" "Opera" 47502254 19058914
    ∷ row "008062" "Bajcsy-Zsilinszky út" 47499828 19055244
    ∷ row "008067" "Szent Imre tér" 47430889 19070300
    ∷ row "008068" "Vörösmarty tér" 47496802 19050523
    ∷ row "008075" "Kőbánya-Kispest" 47463402 19149185
    ∷ row "008076" "Határ út" 47465443 19126757
    ∷ row "008077" "Pöttyös utca" 47468548 19116946
    ∷ row "008078" "Ecseri út" 47470920 19111329
    ∷ row "008082" "Népliget" 47475441 19098808
    ∷ row "008083" "Nagyvárad tér" 47478943 19089796
    ∷ row "008084" "Semmelweis Klinikák" 47482834 19079176
    ∷ row "008085" "Corvin-negyed" 47485786 19070152
    ∷ row "008086" "Széll Kálmán tér M" 47507313 19026381
    ∷ row "008087" "Fény utcai piac" 47508464 19023646
    ∷ row "008090" "Móricz Zsigmond körtér M" 47477256 19048786
    ∷ row "008093" "Dél-pesti autóbuszgarázs" 47426707 19161776
    ∷ row "008094" "Dél-pesti autóbuszgarázs" 47426160 19160940
    ∷ row "008095" "Nagykőrösi út" 47425255 19157029
    ∷ row "008096" "Nagykőrösi út" 47425183 19157506
    ∷ row "008098" "Szabina út" 47436429 19013415
    ∷ row "008099" "Pék utca" 47442142 19018436
    ∷ row "008100" "Pék utca" 47442188 19018635
    ∷ row "008101" "Rózsavölgy felső" 47441163 19022295
    ∷ row "008102" "Rózsavölgy felső" 47441217 19022388
    ∷ row "008103" "Rózsavölgy alsó" 47438304 19030344
    ∷ row "008104" "Rózsavölgy alsó" 47438304 19030012
    ∷ row "008106" "Vihar utca" 47434282 19035651
    ∷ row "008109" "Damjanich utca" 47402527 18991053
    ∷ row "008110" "Barosstelep vasútállomás" 47399613 18990911
    ∷ row "008111" "Barackos út / Angeli utca" 47402248 18974427
    ∷ row "008112" "Szakiskola utca" 47404920 18975841
    ∷ row "008113" "Szilvafa utca" 47405184 18982160
    ∷ row "008114" "Mátyás király utca" 47404326 18990746
    ∷ row "008115" "Szebeni utca" 47430356 19016021
    ∷ row "008116" "Szebeni utca" 47430177 19016910
    ∷ row "008119" "Mátra utca" 47400093 18997693
    ∷ row "008120" "Budatétény vasútállomás (Campona)" 47405739 19013846
    ∷ row "008124" "Zöldike utca" 47430715 19012800
    ∷ row "008125" "Zöldike utca" 47431205 19012359
    ∷ row "008126" "Hír utca" 47432864 19011526
    ∷ row "008127" "Hír utca" 47432882 19011420
    ∷ row "008128" "Ady Endre út" 47435802 19036578
    ∷ row "008129" "Kálvin tér" 47489693 19061707
    ∷ row "008130" "Ferenciek tere" 47493172 19055920
    ∷ row "008132" "Puskás Ferenc Stadion M" 47501220 19107704
    ∷ row "008136" "Arany János utca" 47503063 19054531
    ∷ row "008137" "Nyugati pályaudvar" 47510571 19056072
    ∷ row "008138" "Lehel tér" 47517410 19060192
    ∷ row "008139" "Dózsa György út" 47524653 19063321
    ∷ row "008141" "Göncz Árpád városközpont" 47532719 19066755
    ∷ row "008146" "Vajda Péter utca" 47481378 19103199
    ∷ row "008147" "Vajda Péter utca" 47481801 19103611
    ∷ row "008148" "Kőbányai út / Könyves Kálmán körút" 47485766 19107079
    ∷ row "008149" "Kőbányai út / Könyves Kálmán körút" 47486260 19107530
    ∷ row "008150" "Zsil utca" 47482940 19062984
    ∷ row "008152" "Mester utca / Könyves Kálmán körút" 47469594 19083740
    ∷ row "008153" "Mester utca / Könyves Kálmán körút" 47469746 19084483
    ∷ row "008154" "Boráros tér H (Közraktár utca)" 47481222 19065345
    ∷ row "008155" "Közvágóhíd H" 47468760 19072769
    ∷ row "008156" "Új köztemető" 47473586 19178326
    ∷ row "008159" "Forgách utca" 47539383 19069597
    ∷ row "008162" "Gyöngyösi utca" 47548691 19073233
    ∷ row "008163" "Újpest-városkapu" 47558926 19079229
    ∷ row "008164" "Örs vezér tere M+H" 47501382 19136585
    ∷ row "008165" "Örs vezér tere M+H" 47501830 19136484
    ∷ row "008168" "I. utca" 47400994 19002739
    ∷ row "008169" "I. utca" 47400904 19003494
    ∷ row "008170" "Angeli utca / Nagytétényi út" 47390622 18981000
    ∷ row "008175" "Népliget M" 47475806 19100180
    ∷ row "008181" "Cinkotai autóbuszgarázs" 47498562 19237779
    ∷ []
