-- ===== src/StopList/Part13.antt =====
-- Lines 1971 to 2120 of bkk_uds/bkk_stop_list.h.
use mathlib.Core.List.{List, [], ◌∷◌}
use bkk_api.StopList.Row.{BkkStop, row}

unfoldable pub stops_13 : List BkkStop
stops_13 =
    row "F00369" "Széchenyi utca" 47547535 18954630
    ∷ row "F00370" "Turul utca (kishíd)" 47548944 18951784
    ∷ row "F00371" "Turul utca (kishíd)" 47548881 18951678
    ∷ row "F00372" "Gondozási Központ" 47514371 19015505
    ∷ row "F00373" "Gondozási Központ" 47514056 19015678
    ∷ row "F00374" "Arany János utca" 47554687 18946074
    ∷ row "F00375" "Arany János utca" 47554821 18945901
    ∷ row "F00376" "Szirom utca" 47557955 18940235
    ∷ row "F00377" "Szirom utca" 47557641 18940714
    ∷ row "F00378" "Kerekhegyi utca" 47559810 18941919
    ∷ row "F00379" "Kerekhegyi utca" 47560295 18942104
    ∷ row "F00380" "Máriaremetei kegytemplom" 47562745 18946045
    ∷ row "F00381" "Máriaremetei kegytemplom" 47562340 18945767
    ∷ row "F00382" "Köztársaság utca" 47566097 18942943
    ∷ row "F00383" "Köztársaság utca" 47566402 18942331
    ∷ row "F00384" "Honfoglalás utca" 47568712 18940399
    ∷ row "F00385" "Honfoglalás utca" 47568802 18940173
    ∷ row "F00387" "Budaliget, Géza fejedelem útja" 47567674 18936255
    ∷ row "F00388" "Csatlós utca" 47558251 18948844
    ∷ row "F00389" "Csatlós utca" 47558772 18948591
    ∷ row "F00390" "Máriaremetei kegytemplom" 47562612 18947587
    ∷ row "F00391" "Máriaremetei kegytemplom" 47562171 18947588
    ∷ row "F00392" "Gyarmati Dezső Uszoda" 47564925 18950028
    ∷ row "F00393" "Gyarmati Dezső Uszoda" 47565357 18950452
    ∷ row "F00394" "Solymári elágazás" 47566764 18955273
    ∷ row "F00395" "Solymári elágazás" 47566800 18954915
    ∷ row "F00396" "Szarvashegy utca" 47569250 18948757
    ∷ row "F00397" "Szarvashegy utca" 47569241 18948558
    ∷ row "F00398" "Örökzöld utca" 47572335 18944436
    ∷ row "F00399" "Örökzöld utca" 47571885 18944702
    ∷ row "F00400" "Templom utca (Kultúrkúria)" 47564568 18960186
    ∷ row "F00401" "Templom utca (Kultúrkúria)" 47564827 18958936
    ∷ row "F00402" "Községház utca" 47562427 18963254
    ∷ row "F00403" "Községház utca" 47562962 18962741
    ∷ row "F00404" "Mikszáth Kálmán utca" 47559154 18965664
    ∷ row "F00405" "Mikszáth Kálmán utca" 47559712 18965132
    ∷ row "F00406" "Kölcsey utca" 47555269 18965923
    ∷ row "F00407" "Kölcsey utca" 47555755 18965975
    ∷ row "F00408" "Szent János Kórház" 47509594 19010039
    ∷ row "F00409" "Szent János Kórház" 47509728 19009813
    ∷ row "F00410" "Szent János Kórház" 47509818 19009800
    ∷ row "F00411" "Szent János Kórház" 47509837 19009411
    ∷ row "F00412" "Széll Kálmán tér M" 47507691 19024629
    ∷ row "F00414" "Kelemen László utca" 47522240 18990804
    ∷ row "F00415" "Kelemen László utca" 47522366 18990764
    ∷ row "F00416" "Széher út 16." 47521805 18984949
    ∷ row "F00417" "Bölöni György utca / Széher út" 47524096 18980577
    ∷ row "F00422" "Széll Kálmán tér M" 47507475 19023859
    ∷ row "F00423" "Vöröstorony utca" 47528558 18999495
    ∷ row "F00424" "Vöröstorony utca" 47528450 18999800
    ∷ row "F00425" "Nyúl utca" 47508723 19018044
    ∷ row "F00426" "Nyúl utca" 47508669 19017872
    ∷ row "F00427" "Nyúl utca" 47509002 19017008
    ∷ row "F00428" "Nyúl utca" 47508625 19018867
    ∷ row "F00429" "Akadémia" 47519534 18993462
    ∷ row "F00430" "Akadémia" 47519337 18993900
    ∷ row "F00431" "Akadémia" 47518914 18994153
    ∷ row "F00432" "Akadémia" 47519292 18994126
    ∷ row "F00435" "Pusztadombi utca" 47602490 19056687
    ∷ row "F00436" "Égető utca" 47604019 19052445
    ∷ row "F00437" "Táncsics Mihály utca" 47602661 19051301
    ∷ row "F00438" "Gulácsy Lajos utca" 47602562 19048229
    ∷ row "F00439" "Gulácsy Lajos utca" 47602526 19047963
    ∷ row "F00440" "Szőlőkert utca" 47554966 19040643
    ∷ row "F00441" "Szőlőkert utca" 47554633 19040776
    ∷ row "F00442" "Donát utca" 47604172 19043974
    ∷ row "F00443" "Bojtár utca 49." 47559400 19039899
    ∷ row "F00444" "Bojtár utca 49." 47559517 19038171
    ∷ row "F00445" "Templom utca" 47600295 19046620
    ∷ row "F00446" "Templom utca" 47600089 19046315
    ∷ row "F00447" "Hősök tere" 47598101 19043988
    ∷ row "F00448" "Hősök tere" 47597804 19044679
    ∷ row "F00449" "Tamás utca" 47599558 19041169
    ∷ row "F00450" "Tamás utca" 47599351 19041488
    ∷ row "F00451" "Pince köz" 47601572 19036089
    ∷ row "F00452" "Hősök tere" 47597516 19045690
    ∷ row "F00453" "Hősök tere" 47597993 19045517
    ∷ row "F00454" "Zemplén Győző utca" 47596077 19045544
    ∷ row "F00455" "Zemplén Győző utca" 47595376 19045264
    ∷ row "F00456" "Nád utca" 47593996 19049185
    ∷ row "F00457" "Nád utca" 47594072 19048469
    ∷ row "F00458" "Pünkösdfürdő utca" 47594953 19051633
    ∷ row "F00459" "Pünkösdfürdő utca" 47594854 19051793
    ∷ row "F00460" "Békásmegyer H" 47598083 19054253
    ∷ row "F00461" "Békásmegyer H" 47597840 19054067
    ∷ row "F00462" "Szolgáltatóház" 47601212 19058056
    ∷ row "F00463" "Szolgáltatóház" 47601213 19057923
    ∷ row "F00464" "Hímző utca" 47597174 19058760
    ∷ row "F00465" "Hímző utca" 47597030 19059532
    ∷ row "F00466" "Medgyessy Ferenc utca" 47594922 19058160
    ∷ row "F00467" "Medgyessy Ferenc utca" 47595079 19056766
    ∷ row "F00468" "Békásmegyer H" 47597426 19056447
    ∷ row "F00469" "Békásmegyer H" 47598146 19055822
    ∷ row "F00470" "Békásmegyer H" 47597174 19055356
    ∷ row "F00473" "Madzsar József utca / Pünkösdfürdő utca" 47595277 19054425
    ∷ row "F00474" "Madzsar József utca / Pünkösdfürdő utca" 47595124 19054572
    ∷ row "F00475" "Madzsar József utca / Pünkösdfürdő utca" 47594800 19053707
    ∷ row "F00476" "Madzsar József utca / Pünkösdfürdő utca" 47594683 19052777
    ∷ row "F00477" "Szent István utca" 47592318 19052072
    ∷ row "F00478" "Csillaghegy H" 47585779 19047126
    ∷ row "F00479" "Csillaghegy H" 47586058 19045557
    ∷ row "F00482" "Szent István utca" 47590798 19049851
    ∷ row "F00485" "Római tér" 47569797 19048509
    ∷ row "F00486" "Monostori út" 47573089 19050582
    ∷ row "F00489" "Rómaifürdő H" 47575562 19049067
    ∷ row "F00490" "Czetz János köz" 47578206 19049333
    ∷ row "F00491" "Czetz János köz" 47578737 19050130
    ∷ row "F00492" "Czetz János köz" 47578971 19048974
    ∷ row "F00493" "Attila utca" 47579160 19052669
    ∷ row "F00494" "Attila utca" 47579645 19052948
    ∷ row "F00495" "Huba utca" 47581309 19054450
    ∷ row "F00496" "Huba utca" 47581642 19054544
    ∷ row "F00497" "Hunyadi utca" 47584907 19056086
    ∷ row "F00498" "Hunyadi utca" 47584799 19055940
    ∷ row "F00499" "Pók utca" 47565219 19057970
    ∷ row "F00500" "Dósa utca" 47575751 19056723
    ∷ row "F00501" "Dósa utca" 47575598 19057560
    ∷ row "F00502" "Kadosa utca" 47571236 19054117
    ∷ row "F00504" "Sujtás utca" 47563402 19050874
    ∷ row "F00505" "Záhony utca" 47561334 19048190
    ∷ row "F00506" "Záhony utca" 47562206 19048163
    ∷ row "F00507" "Záhony utca" 47560974 19047140
    ∷ row "F00508" "Kaszásdűlő H" 47557098 19046170
    ∷ row "F00509" "Kaszásdűlő H" 47556567 19045533
    ∷ row "F00512" "Kaszásdűlő utca" 47557565 19041626
    ∷ row "F00513" "Kaszásdűlő utca" 47558204 19042091
    ∷ row "F00514" "Dinamó utca" 47563986 19036284
    ∷ row "F00515" "Kunigunda útja" 47560047 19033414
    ∷ row "F00516" "Kunigunda útja" 47560362 19035009
    ∷ row "F00517" "Kunigunda útja" 47559930 19035594
    ∷ row "F00518" "Orbán Balázs út" 47555809 19026945
    ∷ row "F00519" "Orbán Balázs út" 47556403 19026307
    ∷ row "F00520" "Bojtár utca (Bécsi út)" 47560099 19024711
    ∷ row "F00521" "Bojtár utca" 47559002 19024898
    ∷ row "F00522" "Óbudai temető" 47566232 19021931
    ∷ row "F00523" "Óbudai temető" 47565891 19023273
    ∷ row "F00524" "Óbudai temető" 47565720 19022755
    ∷ row "F00529" "Szőlővész utca" 47575827 19013659
    ∷ row "F00530" "Ürömhegyi út" 47577526 19010667
    ∷ row "F00531" "Ürömhegyi út" 47577696 19010042
    ∷ row "F00532" "Üröm vasúti megállóhely" 47581516 19002264
    ∷ row "F00533" "Üröm vasúti megállóhely" 47581651 19001718
    ∷ row "F00534" "Királyhelmec utca" 47552823 19022735
    ∷ row "F00535" "Farkastorki út" 47553803 19021193
    ∷ row "F00536" "Királyhelmec utca" 47553488 19021858
    ∷ row "F00537" "Judit utca" 47556113 19018256
    ∷ row "F00538" "Judit utca" 47556005 19018282
    ∷ row "F00539" "Laborc utca" 47557758 19015544
    ∷ row "F00540" "Laborc utca" 47557633 19015638
    ∷ row "F00541" "Jablonka út 53." 47558945 19013152
    ∷ []
