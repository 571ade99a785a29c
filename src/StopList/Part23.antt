-- ===== src/StopList/Part23.antt =====
-- Lines 3471 to 3620 of bkk_uds/bkk_stop_list.h.
use mathlib.Core.List.{List, [], ◌∷◌}
use bkk_api.StopList.Row.{BkkStop, row}

unfoldable pub stops_23 : List BkkStop
stops_23 =
    row "F02084" "Márton Áron tér" 47481923 18998861
    ∷ row "F02085" "Márton Áron tér" 47481977 18999233
    ∷ row "F02086" "Zajzon utca" 47479837 19000721
    ∷ row "F02087" "Zajzon utca" 47479379 19001132
    ∷ row "F02088" "Tömös utca" 47477910 19002349
    ∷ row "F02089" "Tömös utca" 47477581 19002766
    ∷ row "F02090" "Nagyszalonta köz" 47475274 19004363
    ∷ row "F02091" "Nagyszalonta köz" 47475526 19003867
    ∷ row "F02092" "Bereck utca" 47473104 19008248
    ∷ row "F02093" "Bereck utca" 47473670 19007651
    ∷ row "F02094" "Sümegvár utca" 47469732 19012867
    ∷ row "F02095" "Sümegvár utca" 47469130 19013398
    ∷ row "F02096" "Süveg utca" 47481350 19004766
    ∷ row "F02097" "Süveg utca" 47481431 19004925
    ∷ row "F02098" "Süveg utca" 47481296 19004593
    ∷ row "F02099" "Süveg utca" 47481197 19004700
    ∷ row "F02100" "Farkasréti temető" 47483923 19005374
    ∷ row "F02101" "Farkasréti temető" 47484282 19005679
    ∷ row "F02102" "Farkasréti temető" 47483770 19006223
    ∷ row "F02103" "Farkasréti temető" 47483662 19005852
    ∷ row "F02104" "Hegytető utca" 47484428 19009288
    ∷ row "F02105" "Hegytető utca" 47484644 19009871
    ∷ row "F02106" "Sion lépcső" 47485203 19015961
    ∷ row "F02107" "Sion lépcső" 47485392 19016943
    ∷ row "F02108" "Breznó lépcső" 47484179 19020632
    ∷ row "F02109" "Breznó lépcső" 47483792 19021017
    ∷ row "F02110" "Zólyomi út" 47483244 19022835
    ∷ row "F02111" "Zólyomi út" 47483442 19022848
    ∷ row "F02112" "BAH-csomópont" 47486761 19023152
    ∷ row "F02113" "Fehérló utca" 47478154 19025717
    ∷ row "F02114" "Fehérló utca" 47478271 19025398
    ∷ row "F02115" "Alsóhegy utca" 47482941 19030090
    ∷ row "F02116" "Alsóhegy utca" 47482702 19030463
    ∷ row "F02117" "Alsóhegy utca" 47482829 19030673
    ∷ row "F02118" "Alsóhegy utca" 47482679 19030252
    ∷ row "F02119" "Alsóhegy utca" 47482193 19030173
    ∷ row "F02120" "Alsóhegy utca" 47482022 19029947
    ∷ row "F02121" "Diószegi út (Vérellátó Szolgálat)" 47478434 19031872
    ∷ row "F02122" "Diószegi út (Vérellátó Szolgálat)" 47478614 19031487
    ∷ row "F02123" "Vincellér utca" 47476663 19035720
    ∷ row "F02124" "Vincellér utca" 47476285 19035932
    ∷ row "F02125" "Szüret utca" 47480365 19035769
    ∷ row "F02126" "Szüret utca" 47480283 19036129
    ∷ row "F02127" "Szüret utca" 47480185 19036537
    ∷ row "F02128" "Szüret utca" 47479955 19037364
    ∷ row "F02129" "Szüret utca" 47480557 19036674
    ∷ row "F02130" "Iglói utca" 47483526 19039739
    ∷ row "F02131" "Iglói utca" 47483292 19040535
    ∷ row "F02132" "Balogh Tihamér utca" 47481853 19042897
    ∷ row "F02133" "Balogh Tihamér utca" 47481898 19042989
    ∷ row "F02134" "Kelenhegyi lépcső" 47481241 19045152
    ∷ row "F02135" "Kelenhegyi lépcső" 47482003 19045375
    ∷ row "F02136" "Rezeda utca" 47483418 19043467
    ∷ row "F02137" "Rezeda utca" 47483280 19043544
    ∷ row "F02138" "Búsuló Juhász (Citadella)" 47485172 19040614
    ∷ row "F02142" "Szent Gellért tér - Műegyetem M" 47482896 19053776
    ∷ row "F02143" "Szent Gellért tér - Műegyetem M" 47482860 19053922
    ∷ row "F02144" "Szent Gellért tér - Műegyetem M" 47482482 19052940
    ∷ row "F02145" "Szent Gellért tér - Műegyetem M" 47482393 19052569
    ∷ row "F02146" "Tas vezér utca" 47478854 19040156
    ∷ row "F02147" "Tas vezér utca" 47478818 19040577
    ∷ row "F02148" "Gárdonyi tér" 47479991 19051428
    ∷ row "F02149" "Gárdonyi tér" 47480522 19051932
    ∷ row "F02150" "Móricz Zsigmond körtér M" 47476960 19049782
    ∷ row "F02152" "Budafoki út / Karinthy Frigyes út" 47476872 19053383
    ∷ row "F02153" "Budafoki út / Karinthy Frigyes út" 47475850 19054105
    ∷ row "F02154" "Budafoki út / Karinthy Frigyes út" 47476048 19053455
    ∷ row "F02155" "Budafoki út / Karinthy Frigyes út" 47475412 19053165
    ∷ row "F02156" "Budafoki út / Karinthy Frigyes út" 47476169 19052582
    ∷ row "F02157" "Lőportorony utca" 47451890 19050709
    ∷ row "F02158" "Lőportorony utca" 47451944 19051067
    ∷ row "F02159" "Szép utca" 47431123 18980034
    ∷ row "F02160" "Szép utca" 47430826 18980206
    ∷ row "F02161" "Dűlő út" 47427282 18979257
    ∷ row "F02162" "Dűlő út" 47427678 18979985
    ∷ row "F02163" "BAH-csomópont" 47486986 19023046
    ∷ row "F02164" "BAH-csomópont" 47487310 19023550
    ∷ row "F02165" "BAH-csomópont" 47488299 19024345
    ∷ row "F02166" "BAH-csomópont" 47487190 19024696
    ∷ row "F02167" "BAH-csomópont" 47486852 19024596
    ∷ row "F02168" "BAH-csomópont" 47487715 19025553
    ∷ row "F02169" "BAH-csomópont" 47486698 19024943
    ∷ row "F02170" "Budaörsi út / Villányi út" 47484117 19027014
    ∷ row "F02171" "Budaörsi út / Villányi út" 47484109 19026812
    ∷ row "F02172" "Budaörsi út / Villányi út" 47484134 19026586
    ∷ row "F02173" "Budaörsi út / Villányi út" 47483821 19027067
    ∷ row "F02174" "Muskotály köz" 47483110 19026325
    ∷ row "F02176" "Kosztolányi Dezső tér" 47475845 19042207
    ∷ row "F02177" "Kosztolányi Dezső tér" 47475951 19042538
    ∷ row "F02180" "Kosztolányi Dezső tér" 47474864 19042062
    ∷ row "F02181" "Kosztolányi Dezső tér" 47474990 19039382
    ∷ row "F02182" "Kosztolányi Dezső tér" 47475688 19039949
    ∷ row "F02183" "Kosztolányi Dezső tér" 47474891 19038864
    ∷ row "F02184" "Kosztolányi Dezső tér" 47475179 19040191
    ∷ row "F02192" "Móricz Zsigmond körtér M" 47477779 19047938
    ∷ row "F02193" "Móricz Zsigmond körtér M" 47477550 19046278
    ∷ row "F02194" "Móricz Zsigmond körtér M" 47477248 19047328
    ∷ row "F02196" "Móricz Zsigmond körtér M" 47478081 19045468
    ∷ row "F02197" "Móricz Zsigmond körtér M" 47478074 19044899
    ∷ row "F02198" "Móricz Zsigmond körtér M" 47478144 19045163
    ∷ row "F02199" "Móricz Zsigmond körtér M" 47477739 19046371
    ∷ row "F02200" "Móricz Zsigmond körtér M" 47477815 19046253
    ∷ row "F02201" "Móricz Zsigmond körtér M" 47477770 19045935
    ∷ row "F02202" "Móricz Zsigmond körtér M" 47477374 19046161
    ∷ row "F02203" "Móricz Zsigmond körtér M" 47477491 19046864
    ∷ row "F02210" "Kelenföld vasútállomás M" 47465166 19022619
    ∷ row "F02211" "Herend utca" 47447251 19033354
    ∷ row "F02212" "Herend utca" 47446672 19033591
    ∷ row "F02213" "Puskás Tivadar utca" 47460380 19033388
    ∷ row "F02214" "Puskás Tivadar utca" 47460437 19033642
    ∷ row "F02215" "Bártfai utca" 47464034 19029304
    ∷ row "F02216" "Bártfai utca" 47464286 19029131
    ∷ row "F02217" "Rupphegyi út" 47463257 18983155
    ∷ row "F02218" "Rupphegyi út" 47463104 18983819
    ∷ row "F02219" "Albertfalva vasútállomás" 47441855 19034588
    ∷ row "F02220" "Kelenföldi autóbuszgarázs" 47473324 19030213
    ∷ row "F02221" "Kelenföldi autóbuszgarázs" 47473262 19030773
    ∷ row "F02222" "Petőfi híd, budai hídfő" 47476573 19059268
    ∷ row "F02224" "Petőfi híd, budai hídfő" 47476695 19058975
    ∷ row "F02225" "Petőfi híd, budai hídfő" 47476956 19059572
    ∷ row "F02226" "Gazdagréti tér" 47473142 18992276
    ∷ row "F02227" "Gazdagréti tér" 47473322 18992542
    ∷ row "F02228" "Gazdagréti tér" 47473223 18992436
    ∷ row "F02229" "Gazdagréti tér" 47473484 18992979
    ∷ row "F02232" "Örsöddűlő" 47454920 18993158
    ∷ row "F02233" "Örsöddűlő" 47455118 18993184
    ∷ row "F02234" "Kelenföldi Erőmű" 47464485 19052793
    ∷ row "F02235" "Kelenföldi Erőmű" 47464422 19053098
    ∷ row "F02236" "Hengermalom út" 47459233 19052095
    ∷ row "F02237" "Hengermalom út" 47459430 19052474
    ∷ row "F02238" "Csonka János tér" 47469783 19044821
    ∷ row "F02239" "Csonka János tér" 47470259 19045087
    ∷ row "F02240" "Kalotaszeg utca" 47459178 19041003
    ∷ row "F02241" "Kalotaszeg utca" 47458827 19040976
    ∷ row "F02242" "Regős köz" 47468218 19003437
    ∷ row "F02243" "Regős köz" 47468587 19003357
    ∷ row "F02244" "Torbágy utca" 47467757 18998609
    ∷ row "F02245" "Torbágy utca" 47467964 18998596
    ∷ row "F02246" "Előpatak utca" 47471521 19010544
    ∷ row "F02247" "Előpatak utca" 47471081 19010942
    ∷ row "F02252" "Pető Intézet (Villányi út)" 47481864 19032616
    ∷ row "F02253" "Pető Intézet (Villányi út)" 47481659 19032915
    ∷ row "F02254" "Ménesi út" 47481529 19038107
    ∷ row "F02255" "Ménesi út" 47481835 19038293
    ∷ row "F02259" "Hengermalom út / Szerémi út" 47461886 19047037
    ∷ row "F02260" "Hengermalom út / Szerémi út" 47461751 19046440
    ∷ row "F02261" "Hollókő utca" 47475340 19029830
    ∷ row "F02262" "Hollókő utca" 47475655 19030401
    ∷ row "F02263" "Albertfalva vasútállomás" 47441854 19032096
    ∷ row "F02264" "Állvány utca" 47445272 19028449
    ∷ []
