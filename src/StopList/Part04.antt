-- ===== src/StopList/Part04.antt =====
-- Lines 621 to 770 of bkk_uds/bkk_stop_list.h.
use mathlib.Core.List.{List, [], ◌∷◌}
use bkk_api.StopList.Row.{BkkStop, row}

unfoldable pub stops_04 : List BkkStop
stops_04 =
    row "009512" "Endrődi Sándor utca" 47521143 19011996
    ∷ row "009513" "Bimbó út / Gábor Áron utca" 47519342 19008978
    ∷ row "009514" "Bimbó út / Gábor Áron utca" 47519964 19010576
    ∷ row "009515" "Rákospalota-Újpest vasútállomás" 47566389 19111644
    ∷ row "009516" "Rákospalota-Újpest vasútállomás" 47566191 19111737
    ∷ row "009520" "Csörsz utca" 47490152 19023509
    ∷ row "009521" "Csörsz utca" 47490008 19023668
    ∷ row "009522" "MOM Kulturális Központ" 47490528 19018519
    ∷ row "009524" "Albertfalva vasútállomás" 47441881 19032202
    ∷ row "009531" "Ifjúság útja" 47501492 19104004
    ∷ row "009532" "Puskás Ferenc Stadion M" 47500079 19106565
    ∷ row "009534" "XIII. utca / Dózsa György út" 47411163 18993654
    ∷ row "009536" "Káposztásmegyer, Mogyoródi-patak" 47598690 19121323
    ∷ row "009537" "Március 15. tér" 47491582 19051386
    ∷ row "009538" "Irány utca" 47540497 19109769
    ∷ row "009539" "Boglár utca" 47594701 19060994
    ∷ row "009540" "Szilágyi Erzsébet fasor" 47515203 19002149
    ∷ row "009541" "Ady Endre út" 47436278 19035478
    ∷ row "009543" "513. utca" 47484291 19230112
    ∷ row "009544" "Robogó utca" 47487259 19270089
    ∷ row "009546" "Memento Park" 47425566 19001432
    ∷ row "009548" "Tatárka utca" 47433883 19021083
    ∷ row "009549" "Madárdomb köz" 47478076 19241208
    ∷ row "009550" "Madárdomb köz" 47477987 19241128
    ∷ row "009551" "Margó Tivadar utca" 47433123 19176437
    ∷ row "009554" "Óbuda, Bogdáni út" 47550028 19041176
    ∷ row "009555" "Szilágyi utca" 47570571 19112699
    ∷ row "009557" "Vécsey Károly utca / Nádor utca" 47571892 19096021
    ∷ row "009558" "Szent János Kórház" 47509962 19009919
    ∷ row "009563" "Mészkő utca" 47579213 19034844
    ∷ row "009564" "Mészkő utca" 47579051 19034127
    ∷ row "009566" "Soroksár, Auchan áruház" 47417213 19158245
    ∷ row "009568" "Sósmocsár út" 47414805 19134083
    ∷ row "009569" "Thököly út" 47441995 19180980
    ∷ row "009570" "Újbuda-központ M" 47474163 19047050
    ∷ row "009572" "Bagaria utca" 47590199 19083142
    ∷ row "009573" "Bagaria utca" 47590307 19083674
    ∷ row "009574" "Ungvári utca" 47587474 19082223
    ∷ row "009575" "Ungvári utca" 47587313 19081890
    ∷ row "009576" "Rév utca" 47584794 19081689
    ∷ row "009577" "Savoya Park" 47436603 19039548
    ∷ row "009578" "Savoya Park" 47436656 19039269
    ∷ row "009581" "Gábor Áron utca" 47514978 19002123
    ∷ row "009582" "János tér" 47441996 19102521
    ∷ row "009584" "Békásmegyer H" 47597444 19055543
    ∷ row "009586" "Baross utca" 47436340 19098763
    ∷ row "009587" "Gogol utca" 47520447 19056980
    ∷ row "009588" "Kuruclesi út" 47518001 18985232
    ∷ row "009592" "Kőbánya-Kispest M" 47464152 19146197
    ∷ row "009611" "Hidegkuti Nándor Stadion" 47490210 19109593
    ∷ row "009625" "Szigetcsép utca" 47464407 19312701
    ∷ row "009629" "Batthyány tér M+H" 47505588 19039284
    ∷ row "009630" "Budakalász, Auchan áruház" 47611510 19062341
    ∷ row "009631" "Gergely utca 80." 47474051 19144354
    ∷ row "009632" "Nagykőrösi út / Határ út" 47456394 19114274
    ∷ row "009634" "Cinkotai autóbuszgarázs (kapu)" 47498634 19237646
    ∷ row "009636" "Kelenföldi autóbuszgarázs (kapu)" 47473264 19029397
    ∷ row "009637" "Óbudai autóbuszgarázs (Pomázi kapu)" 47568220 19027770
    ∷ row "009638" "Kőbányai garázs (Salgótarjáni kapu)" 47490979 19114277
    ∷ row "009646" "Angyalföld kocsiszín (Pozsonyi kapu)" 47551014 19091714
    ∷ row "009647" "Baross kocsiszín (Magdolna kapu)" 47491893 19087286
    ∷ row "009652" "Széchenyi út" 47545721 19112403
    ∷ row "009659" "Mélyfúró utca" 47577512 19129774
    ∷ row "009667" "Újbuda-központ M" 47474064 19048204
    ∷ row "009675" "Clark Ádám tér" 47497665 19041541
    ∷ row "009676" "Clark Ádám tér" 47497359 19041594
    ∷ row "009684" "Rákoskeresztúr, városközpont" 47478941 19256176
    ∷ row "009685" "Akácvirág utca (egészségház)" 47477351 19255241
    ∷ row "009691" "Flórián tér" 47539901 19042054
    ∷ row "009692" "Szentlélek tér H" 47539937 19046755
    ∷ row "009693" "Kolosy tér" 47527678 19036823
    ∷ row "009698" "Székács utca" 47498370 19015183
    ∷ row "009699" "Székács utca" 47498245 19015329
    ∷ row "009702" "Magdolna utca" 47492988 19087193
    ∷ row "009704" "Jászivány utca" 47495409 19275378
    ∷ row "009705" "Tura utca / Diadal utca" 47494390 19272268
    ∷ row "009706" "XVIII. utca" 47491598 19259995
    ∷ row "009707" "Aranykút utca" 47493758 19277998
    ∷ row "009708" "Rákoscsaba vasútállomás" 47491547 19281890
    ∷ row "009709" "Budapest, Újbuda-központ" 47474406 19045497
    ∷ row "009715" "Zodony utca" 47430331 19099898
    ∷ row "009716" "Pesterzsébet vasútállomás" 47433454 19095738
    ∷ row "009717" "Zamárdi utca" 47434256 19093472
    ∷ row "009718" "Vízisport utca" 47434463 19091352
    ∷ row "009719" "Csepeli átjáró" 47436363 19093356
    ∷ row "009728" "Zsigmond utca" 47463981 19318336
    ∷ row "009729" "Zsigmond utca" 47463973 19317686
    ∷ row "009730" "Széll Kálmán tér M" 47506881 19023541
    ∷ row "009743" "MOM Kulturális Központ" 47490349 19019528
    ∷ row "009747" "Ezred utca, lakótelep" 47609007 19101441
    ∷ row "009748" "LOGIN Business park" 47605157 19103711
    ∷ row "009753" "Blaha Lujza tér M (Népszínház utca)" 47495999 19071283
    ∷ row "009763" "Zsófialiget H" 47548044 19263894
    ∷ row "009764" "Zsófialiget H" 47547898 19263369
    ∷ row "009774" "Jászberényi út / Maglódi út" 47489886 19148828
    ∷ row "011302" "Farkas-erdő (Állatsziget)" 47586742 19103401
    ∷ row "011313" "Szent László utca" 47405823 18999264
    ∷ row "011316" "Atlétikai stadion" 47572468 19113937
    ∷ row "011317" "Atlétikai stadion" 47572108 19113950
    ∷ row "011319" "Móricz Zsigmond körtér M" 47477527 19048628
    ∷ row "011320" "Búza utca" 47553410 19040272
    ∷ row "011321" "Búza utca" 47551863 19039634
    ∷ row "011322" "Óbuda, Bogdáni út" 47549830 19041189
    ∷ row "011325" "Halászbástya (Schulek Frigyes lépcső)" 47502240 19035339
    ∷ row "011327" "Budaörsi Ipari és Technológiai Park" 47463310 18894407
    ∷ row "011495" "Kék Golyó utca" 47497895 19019895
    ∷ row "011577" "Soroksár, központi raktárak" 47378703 19130043
    ∷ row "011715" "509. utca" 47484937 19225470
    ∷ row "011722" "Rákoskeresztúr, városközpont" 47479663 19254959
    ∷ row "011723" "Rákoskeresztúr, városközpont" 47479536 19255542
    ∷ row "011724" "Rákoskeresztúr, városközpont" 47479373 19256098
    ∷ row "011725" "Rákoskeresztúr, városközpont" 47479802 19255489
    ∷ row "011726" "Rákoskeresztúr, városközpont" 47479942 19254761
    ∷ row "011727" "Rákospatak utca / Csömöri út" 47524636 19117028
    ∷ row "011732" "Deák Ferenc tér M" 47499212 19053658
    ∷ row "011754" "Rákospatak utca / Csömöri út" 47524275 19117811
    ∷ row "011762" "Újpest-városkapu M" 47559063 19078803
    ∷ row "011765" "Boráros tér H" 47479285 19067812
    ∷ row "011768" "Rákoscsaba-Újtelep, Tóalmás utca" 47499272 19286768
    ∷ row "011773" "Keresztúri út" 47484637 19227764
    ∷ row "016725" "Rózsaliget" 47466591 19158440
    ∷ row "016727" "Újbuda-központ M" 47474649 19046771
    ∷ row "016729" "Naphegy tér" 47493472 19032796
    ∷ row "016764" "Kalotaszeg utca" 47458684 19041056
    ∷ row "016938" "Erzsébet királyné útja, aluljáró" 47517865 19094459
    ∷ row "019313" "Rákoskert vasútállomás" 47457296 19295147
    ∷ row "019314" "Schell Gyuláné tér" 47459805 19299349
    ∷ row "019316" "Rákoscsaba vasútállomás" 47491050 19282830
    ∷ row "022005" "Tölgy utca" 47416403 19205417
    ∷ row "022006" "Szenes Iván tér" 47479946 19095674
    ∷ row "030328" "Soroksár, Hősök tere H" 47399367 19115423
    ∷ row "031884" "Nagykovácsi, Tisza István tér" 47575789 18879511
    ∷ row "036236" "Szigetszentmiklós H" 47345454 19048205
    ∷ row "036678" "Széll Kálmán tér M" 47506710 19025240
    ∷ row "037747" "Lakihegy, Cseresznyés utca" 47377332 19007248
    ∷ row "037748" "Lakihegy, Cseresznyés utca" 47376792 19006348
    ∷ row "038670" "Kőbánya-Kispest M" 47462319 19148576
    ∷ row "038671" "Kőbánya-Kispest M" 47462283 19148324
    ∷ row "038673" "Kőbánya-Kispest M" 47462624 19149068
    ∷ row "038674" "Kőbánya-Kispest M" 47462967 19147663
    ∷ row "038675" "Kőbánya-Kispest M" 47463193 19147318
    ∷ row "038678" "Kőbánya-Kispest M" 47463048 19147901
    ∷ row "038680" "Kőbánya-Kispest M" 47462922 19148405
    ∷ row "038681" "Kőbánya-Kispest M" 47462795 19149055
    ∷ row "038682" "Kőbánya-Kispest M" 47462840 19149201
    ∷ row "038683" "Kőbánya-Kispest M" 47462976 19148644
    ∷ row "038686" "Kőbánya-Kispest M" 47463435 19147345
    ∷ row "038687" "Kőbánya-Kispest M" 47463282 19147981
    ∷ row "038688" "Kőbánya-Kispest M" 47463174 19148379
    ∷ row "038693" "Kőbánya-Kispest M" 47462935 19148914
    ∷ []
