-- ===== src/StopList/Part33.antt =====
-- Lines 4971 to 5120 of bkk_uds/bkk_stop_list.h.
use mathlib.Core.List.{List, [], ◌∷◌}
use bkk_api.StopList.Row.{BkkStop, row}

unfoldable pub stops_33 : List BkkStop
stops_33 =
    row "F03765" "Fiatalság utca" 47436554 19172654
    ∷ row "F03766" "Kinizsi Pál utca" 47436733 19173503
    ∷ row "F03767" "Kossuth Lajos utca" 47442919 19175758
    ∷ row "F03768" "Baross utca" 47444511 19175285
    ∷ row "F03769" "Baross utca" 47443278 19175945
    ∷ row "F03770" "Baross utca" 47444024 19176199
    ∷ row "F03771" "Baross utca" 47444475 19175603
    ∷ row "F03772" "Baross utca" 47444349 19175696
    ∷ row "F03774" "Mikszáth Kálmán utca" 47450769 19177315
    ∷ row "F03776" "Pestszentlőrinc vasútállomás" 47454821 19181529
    ∷ row "F03778" "Kalász utca" 47392889 19200712
    ∷ row "F03779" "Kalász utca" 47393096 19200262
    ∷ row "F03780" "Repülőtér, Főporta" 47422807 19240755
    ∷ row "F03781" "Repülőtér, Főporta" 47423213 19239948
    ∷ row "F03782" "Repülőtér, D porta" 47426556 19236541
    ∷ row "F03783" "Repülőtér, D porta" 47425899 19236936
    ∷ row "F03784" "Duna utca" 47433425 19220659
    ∷ row "F03785" "Duna utca" 47433034 19220562
    ∷ row "F03786" "Tövishát utca" 47427299 19172911
    ∷ row "F03787" "Pestszentlőrinc, Béke tér" 47428895 19218855
    ∷ row "F03788" "Pestszentlőrinc, Béke tér" 47429462 19218393
    ∷ row "F03789" "Pestszentlőrinc, Béke tér" 47429588 19218274
    ∷ row "F03790" "Pestszentlőrinc, Béke tér" 47428688 19219013
    ∷ row "F03791" "Pestszentlőrinc, Béke tér" 47429346 19217836
    ∷ row "F03792" "Béke tér" 47429257 19217504
    ∷ row "F03793" "Gyergyó utca" 47426113 19226228
    ∷ row "F03794" "Gyergyó utca" 47426240 19225566
    ∷ row "F03795" "Ganztelep, Mednyánszky utca" 47423843 19234636
    ∷ row "F03796" "Kupeczky János utca" 47424830 19230107
    ∷ row "F03797" "Kupeczky János utca" 47424487 19230848
    ∷ row "F03798" "Kétújfalu utca" 47418989 19208500
    ∷ row "F03799" "Alacskai út" 47416941 19206506
    ∷ row "F03800" "Pestszentimre, Benjámin utca" 47399097 19205631
    ∷ row "F03801" "Honvéd utca" 47434488 19200580
    ∷ row "F03802" "Üllői út" 47435214 19202186
    ∷ row "F03803" "Honvéd utca" 47434801 19201495
    ∷ row "F03804" "Honvéd utca" 47434296 19202660
    ∷ row "F03805" "Honvéd utca" 47434747 19201893
    ∷ row "F03806" "Honvéd utca" 47435036 19200833
    ∷ row "F03807" "Szent László utca" 47441791 19207654
    ∷ row "F03808" "Szemeretelep vasútállomás" 47443151 19212205
    ∷ row "F03809" "Szent László utca" 47439869 19211890
    ∷ row "F03810" "Ferihegy vasútállomás" 47436741 19222565
    ∷ row "F03814" "Billentyű utca" 47447556 19207644
    ∷ row "F03816" "Gyékény tér" 47430905 19196248
    ∷ row "F03817" "Gyékény tér" 47430950 19196354
    ∷ row "F03818" "Bethlen Gábor utca" 47410871 19176728
    ∷ row "F03819" "Bethlen Gábor utca" 47410510 19177377
    ∷ row "F03820" "Szélső utca" 47401169 19181805
    ∷ row "F03821" "Szélső utca" 47400855 19181473
    ∷ row "F03822" "Madarász utca" 47437835 19192781
    ∷ row "F03823" "Madarász utca" 47437646 19193085
    ∷ row "F03824" "Madarász utca" 47437808 19192609
    ∷ row "F03825" "Madarász utca" 47437772 19192396
    ∷ row "F03826" "Csaba utca" 47454576 19190135
    ∷ row "F03827" "Thököly út" 47448619 19185756
    ∷ row "F03828" "Thököly út" 47448520 19185584
    ∷ row "F03829" "Kosztolányi Dezső utca" 47449086 19192957
    ∷ row "F03830" "Kosztolányi Dezső utca" 47449554 19193118
    ∷ row "F03831" "Csörötnek utca" 47449694 19181211
    ∷ row "F03832" "Csörötnek utca" 47449558 19182020
    ∷ row "F03833" "Kemény Zsigmond utca" 47445783 19172318
    ∷ row "F03834" "Kemény Zsigmond utca" 47446044 19171894
    ∷ row "F03835" "Kemény Zsigmond utca" 47445377 19173006
    ∷ row "F03836" "Kemény Zsigmond utca" 47446053 19171669
    ∷ row "F03837" "Kispesti temető" 47442946 19157555
    ∷ row "F03838" "Kispesti temető" 47442685 19158085
    ∷ row "F03839" "Lakatos úti lakótelep" 47451206 19172835
    ∷ row "F03840" "Lakatos úti lakótelep" 47451682 19172968
    ∷ row "F03841" "Tinódi utca" 47454673 19168254
    ∷ row "F03842" "Tinódi utca" 47453826 19170215
    ∷ row "F03843" "Vajk utca" 47455751 19185403
    ∷ row "F03845" "Pestszentlőrinc vasútállomás (átjáró)" 47456339 19182938
    ∷ row "F03846" "Beszterce utca" 47425784 19214720
    ∷ row "F03847" "Beszterce utca" 47425285 19214456
    ∷ row "F03848" "Halomi út" 47422744 19211943
    ∷ row "F03849" "Halomi út" 47422052 19211477
    ∷ row "F03850" "Királyhágó út" 47422592 19211280
    ∷ row "F03851" "Selmecbánya utca" 47438377 19204820
    ∷ row "F03852" "Selmecbánya utca" 47436212 19209334
    ∷ row "F03853" "Ungvár utca" 47431216 19212049
    ∷ row "F03854" "Ungvár utca" 47431225 19212261
    ∷ row "F03855" "Ungvár utca" 47430982 19212433
    ∷ row "F03856" "Ungvár utca" 47431487 19211255
    ∷ row "F03857" "Sas utca" 47432712 19189811
    ∷ row "F03858" "Sas utca" 47432686 19189069
    ∷ row "F03859" "Alacskai úti lakótelep" 47414213 19201939
    ∷ row "F03860" "Alacskai úti lakótelep" 47413746 19201487
    ∷ row "F03861" "Alacskai úti lakótelep" 47413188 19201433
    ∷ row "F03862" "Alacskai úti lakótelep" 47413026 19201923
    ∷ row "F03863" "Tarkő utca" 47425080 19207034
    ∷ row "F03864" "Tarkő utca" 47425089 19207179
    ∷ row "F03865" "Nagyenyed utca" 47427280 19203276
    ∷ row "F03866" "Nagyenyed utca" 47427442 19203250
    ∷ row "F03867" "Rába utca" 47427794 19221502
    ∷ row "F03868" "Rába utca" 47427793 19221873
    ∷ row "F03869" "Szemeretelep vasútállomás" 47443996 19213017
    ∷ row "F03870" "Szemeretelep vasútállomás" 47444637 19213532
    ∷ row "F03871" "Zöldségpiac" 47416527 19169056
    ∷ row "F03872" "Zöldségpiac" 47417509 19168144
    ∷ row "F03873" "Eke utca" 47407826 19180974
    ∷ row "F03874" "Eke utca" 47406529 19182468
    ∷ row "F03875" "Csolt utca" 47399646 19191657
    ∷ row "F03876" "Csolt utca" 47399367 19192186
    ∷ row "F03877" "Olt utca" 47429921 19198764
    ∷ row "F03878" "Olt utca" 47429668 19199373
    ∷ row "F03879" "Goroszló utca" 47428600 19175432
    ∷ row "F03880" "Pestszentlőrinc vasútállomás (átjáró)" 47456087 19183004
    ∷ row "F03881" "Vajk utca" 47455328 19186105
    ∷ row "F03882" "Csaba utca" 47454379 19189948
    ∷ row "F03883" "Üllői út" 47433130 19207190
    ∷ row "F03884" "Bajcsy-Zsilinszky út" 47433185 19206501
    ∷ row "F03885" "Bajcsy-Zsilinszky út" 47432950 19206964
    ∷ row "F03886" "Bajcsy-Zsilinszky út" 47433122 19206461
    ∷ row "F03887" "Bajcsy-Zsilinszky út" 47432915 19206752
    ∷ row "F03888" "Autópiac" 47432826 19149011
    ∷ row "F03889" "Autópiac" 47432007 19149792
    ∷ row "F03890" "Karton utca" 47434164 19161593
    ∷ row "F03891" "Karton utca" 47434327 19160918
    ∷ row "F03892" "Csíky utca" 47432307 19165540
    ∷ row "F03893" "Csíky utca" 47432010 19166069
    ∷ row "F03894" "Csíky utca" 47432469 19165924
    ∷ row "F03895" "Batthyány utca" 47443805 19130723
    ∷ row "F03896" "Debrecen utca" 47443238 19131119
    ∷ row "F03897" "Rákóczi utca" 47452601 19117277
    ∷ row "F03898" "Gomb utca" 47452826 19117436
    ∷ row "F03899" "Corvin körút" 47462079 19134120
    ∷ row "F03900" "Corvin körút" 47461998 19134504
    ∷ row "F03901" "Nyáry Pál utca" 47461665 19134835
    ∷ row "F03902" "Nyáry Pál utca" 47462286 19133616
    ∷ row "F03903" "Árpád utca" 47454554 19151731
    ∷ row "F03904" "Árpád utca" 47454806 19151374
    ∷ row "F03905" "Árpád utca" 47454248 19152221
    ∷ row "F03906" "Árpád utca" 47454906 19150936
    ∷ row "F03907" "Naszód utca (Használtcikk piac)" 47435889 19143754
    ∷ row "F03908" "Használtcikk piac" 47435591 19145464
    ∷ row "F03909" "Alvinc utca" 47437654 19140655
    ∷ row "F03911" "Kéreg utca" 47439015 19138020
    ∷ row "F03912" "Vas Gereben utca" 47439338 19137941
    ∷ row "F03913" "Zrínyi utca" 47441149 19134895
    ∷ row "F03914" "Radnó utca" 47440465 19135464
    ∷ row "F03915" "Nagysándor József utca" 47446137 19126669
    ∷ row "F03916" "Hunyadi utca" 47446272 19126934
    ∷ row "F03917" "Kossuth Lajos utca" 47449721 19121423
    ∷ row "F03918" "Újlaki utca" 47450584 19120669
    ∷ row "F03919" "Álmos utca" 47455758 19117586
    ∷ row "F03920" "Álmos utca" 47454849 19118699
    ∷ row "F03921" "Kós Károly tér (Pannónia út)" 47454728 19125568
    ∷ row "F03922" "Kós Károly tér (Pannónia út)" 47454718 19126562
    ∷ row "F03923" "Kós Károly tér" 47456464 19125265
    ∷ []
