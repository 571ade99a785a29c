-- ===== src/StopList/Part30.antt =====
-- Lines 4521 to 4670 of bkk_uds/bkk_stop_list.h.
use mathlib.Core.List.{List, [], ◌∷◌}
use bkk_api.StopList.Row.{BkkStop, row}

unfoldable pub stops_30 : List BkkStop
stops_30 =
    row "F03259" "János utca" 47528139 19166747
    ∷ row "F03260" "József utca" 47526309 19162454
    ∷ row "F03261" "Csömöri út" 47525967 19162533
    ∷ row "F03262" "József utca" 47525940 19161989
    ∷ row "F03263" "Rákóczi út" 47524083 19157935
    ∷ row "F03264" "Batthyány utca" 47523652 19156593
    ∷ row "F03265" "Rákóczi út" 47524524 19156980
    ∷ row "F03266" "Batthyány utca" 47518431 19161229
    ∷ row "F03267" "Rákosi út" 47517918 19161241
    ∷ row "F03268" "Batthyány utca" 47518440 19161588
    ∷ row "F03269" "Rákosi út" 47518378 19160618
    ∷ row "F03270" "Budapesti út" 47515362 19163798
    ∷ row "F03271" "Budapesti út" 47514904 19164004
    ∷ row "F03272" "Veres Péter út" 47508122 19171973
    ∷ row "F03273" "Thököly út" 47508374 19171880
    ∷ row "F03274" "Lándzsa utca" 47507394 19171042
    ∷ row "F03275" "Thököly út" 47507869 19173060
    ∷ row "F03276" "Pálya utca" 47521426 19152140
    ∷ row "F03277" "Pálya utca" 47521920 19152858
    ∷ row "F03278" "Csömöri út" 47522190 19152128
    ∷ row "F03279" "Csömöri út" 47520761 19151183
    ∷ row "F03280" "Rózsa utca" 47520491 19151328
    ∷ row "F03281" "Rákosszentmihály vasútállomás" 47520017 19148088
    ∷ row "F03282" "Rákosi út" 47516404 19155370
    ∷ row "F03283" "Rózsa utca" 47516098 19156139
    ∷ row "F03284" "Raktárak" 47536854 19246124
    ∷ row "F03285" "Raktárak" 47536254 19244727
    ∷ row "F03286" "Cinkotai autóbuszgarázs" 47497948 19238905
    ∷ row "F03287" "Cinkotai autóbuszgarázs" 47499414 19238324
    ∷ row "F03289" "Cinkotai autóbuszgarázs" 47498418 19237513
    ∷ row "F03290" "Injekcióüzem" 47495856 19231532
    ∷ row "F03291" "Injekcióüzem" 47496206 19231971
    ∷ row "F03292" "Árpádföld, Dezsőfia utca" 47536428 19200793
    ∷ row "F03295" "Állás utca" 47529385 19194040
    ∷ row "F03296" "Állás utca" 47529141 19194796
    ∷ row "F03297" "Állás utca" 47529447 19194930
    ∷ row "F03298" "Menyhért utca" 47531616 19200938
    ∷ row "F03299" "Árpádföld, Bekecs utca" 47533585 19208036
    ∷ row "F03300" "Ostoros út 61." 47523682 19208099
    ∷ row "F03301" "Ostoros út 40." 47523195 19209598
    ∷ row "F03302" "Csókakő utca" 47521928 19215025
    ∷ row "F03303" "Csókakő utca" 47521801 19215635
    ∷ row "F03304" "Cinkota H" 47520403 19218459
    ∷ row "F03305" "Vidámvásár utca" 47519943 19219240
    ∷ row "F03306" "Vidámvásár utca" 47520116 19219146
    ∷ row "F03308" "Mátyásföld, repülőtér H" 47511604 19193566
    ∷ row "F03309" "Mátyásföld, repülőtér H" 47511514 19193831
    ∷ row "F03311" "Pilóta utca" 47505294 19197889
    ∷ row "F03313" "Pilóta utca" 47505527 19198553
    ∷ row "F03314" "Diósy Lajos utca" 47506823 19204942
    ∷ row "F03315" "Diósy Lajos utca" 47506473 19204436
    ∷ row "F03316" "Újszász utca" 47509229 19208095
    ∷ row "F03317" "Újszász utca" 47508905 19208399
    ∷ row "F03318" "Bökényföldi út" 47508696 19209381
    ∷ row "F03319" "Bökényföldi út" 47508769 19209142
    ∷ row "F03320" "Hunyadvár utca" 47512139 19204241
    ∷ row "F03321" "Hunyadvár utca" 47511824 19204319
    ∷ row "F03322" "Bökényföldi út" 47514479 19202973
    ∷ row "F03323" "Veres Péter út" 47514093 19202932
    ∷ row "F03324" "Bökényföldi út" 47514192 19202521
    ∷ row "F03325" "Anilin utca" 47513547 19220096
    ∷ row "F03326" "Anilin utca" 47513233 19219099
    ∷ row "F03327" "Vidámvásár utca (Georgina utca)" 47518485 19225994
    ∷ row "F03328" "Georgina utca" 47518240 19227321
    ∷ row "F03329" "Batthyány Ilona utca" 47519171 19230258
    ∷ row "F03330" "Cinkota, Lassú utca" 47520786 19227037
    ∷ row "F03331" "Rózsalevél utca" 47522550 19231438
    ∷ row "F03332" "Ilonatelep H (Georgina utca)" 47524712 19229467
    ∷ row "F03333" "Ilonatelep H" 47525882 19229179
    ∷ row "F03334" "Ilonatelep H" 47525883 19228515
    ∷ row "F03335" "Nagytarcsai út" 47517201 19235933
    ∷ row "F03336" "Nagytarcsai út" 47516993 19236610
    ∷ row "F03337" "Erdei bekötőút" 47507803 19235276
    ∷ row "F03338" "Erdei bekötőút" 47507587 19235395
    ∷ row "F03339" "Margit utca" 47517715 19190874
    ∷ row "F03340" "Margit utca" 47517175 19190660
    ∷ row "F03341" "Centenáriumi lakótelep" 47516207 19187936
    ∷ row "F03342" "Szent Korona utca" 47529710 19178670
    ∷ row "F03343" "Szent Korona utca" 47530195 19178305
    ∷ row "F03344" "Garat utca" 47505836 19181299
    ∷ row "F03345" "Garat utca" 47506484 19181114
    ∷ row "F03346" "Vörösmarty utca" 47532271 19163171
    ∷ row "F03347" "Péterke utca" 47533149 19185692
    ∷ row "F03348" "Péterke utca" 47533227 19185219
    ∷ row "F03349" "Baross utca" 47533524 19168897
    ∷ row "F03350" "Baross utca" 47532939 19169600
    ∷ row "F03351" "Szilas-patak" 47530095 19187017
    ∷ row "F03352" "Ida utca" 47526315 19182014
    ∷ row "F03353" "Ida utca" 47526017 19182451
    ∷ row "F03354" "Sasvár utca" 47518122 19181077
    ∷ row "F03355" "Sasvár utca" 47514290 19173527
    ∷ row "F03356" "Sasvár utca" 47514543 19173036
    ∷ row "F03357" "Szent Korona utca" 47526014 19169319
    ∷ row "F03358" "Diófa utca" 47525109 19176070
    ∷ row "F03359" "Szent Korona utca" 47523824 19164520
    ∷ row "F03360" "Szent Korona utca" 47523509 19164984
    ∷ row "F03361" "Baross utca" 47526595 19154766
    ∷ row "F03362" "Baross utca" 47526226 19155283
    ∷ row "F03363" "Szent Korona utca" 47520295 19158710
    ∷ row "F03364" "Szent Korona utca" 47520538 19158631
    ∷ row "F03365" "Őrmester utca" 47511994 19167362
    ∷ row "F03366" "Sasvár utca" 47512039 19167481
    ∷ row "F03367" "Sashalmi tér" 47509626 19170370
    ∷ row "F03368" "Sashalmi tér" 47509662 19170144
    ∷ row "F03369" "Baross utca" 47524090 19150326
    ∷ row "F03370" "Baross utca" 47524378 19149915
    ∷ row "F03371" "Szent Korona utcai lakótelep" 47518744 19153224
    ∷ row "F03372" "Szent Korona utcai lakótelep" 47518141 19153661
    ∷ row "F03373" "Szabadságtelep H" 47535325 19204853
    ∷ row "F03374" "Mazsola utca" 47535424 19198027
    ∷ row "F03375" "Rozsos utca" 47533990 19194119
    ∷ row "F03376" "Muzsika utca" 47532061 19204538
    ∷ row "F03377" "Felsőmalom utca" 47526372 19201282
    ∷ row "F03378" "Felsőmalom utca" 47525840 19202064
    ∷ row "F03379" "Cinkota H" 47519370 19217473
    ∷ row "F03380" "Cinkota H" 47518939 19216914
    ∷ row "F03382" "Papír utca" 47510508 19213050
    ∷ row "F03383" "Papír utca" 47510328 19212917
    ∷ row "F03384" "Farkashalom utca" 47511951 19216520
    ∷ row "F03385" "Farkashalom utca" 47512023 19216334
    ∷ row "F03386" "Cinke utca" 47517250 19222881
    ∷ row "F03387" "Cinke utca" 47516745 19222655
    ∷ row "F03388" "Jókai Mór utca (Újszász utca)" 47504902 19194795
    ∷ row "F03389" "Jókai Mór utca" 47504984 19194371
    ∷ row "F03390" "Alsómalom utca" 47524956 19204451
    ∷ row "F03391" "Alsómalom utca" 47524505 19205246
    ∷ row "F03392" "Jókai Mór utca (Rendőrség)" 47510773 19189515
    ∷ row "F03393" "Jókai Mór utca (Rendőrség)" 47510906 19191015
    ∷ row "F03394" "Csinszka utca" 47515626 19206694
    ∷ row "F03395" "Csinszka utca" 47515347 19206268
    ∷ row "F03396" "Mátyásföld, Imre utca H" 47513449 19200089
    ∷ row "F03397" "Mátyásföld, Imre utca H" 47513745 19200581
    ∷ row "F03398" "Műkő utca" 47522796 19223777
    ∷ row "F03399" "Nebántsvirág utca" 47506004 19211337
    ∷ row "F03400" "Petőfi tér" 47506473 19211007
    ∷ row "F03401" "Zsemlékes út" 47502798 19214433
    ∷ row "F03402" "Zsemlékes út" 47503095 19214434
    ∷ row "F03403" "EGIS Gyógyszergyár" 47497054 19224595
    ∷ row "F03404" "EGIS Gyógyszergyár" 47496350 19225866
    ∷ row "F03405" "Cinkotai köztemető" 47531051 19236857
    ∷ row "F03406" "Cinkotai köztemető" 47530593 19235875
    ∷ row "F03407" "Gida utca" 47514557 19191994
    ∷ row "F03408" "Gida utca" 47515025 19191292
    ∷ row "F03427" "Frangepán utca" 47456343 19201531
    ∷ row "F03428" "Frangepán utca" 47456019 19201172
    ∷ row "F03429" "Lőrinci út / Bélatelepi út" 47453141 19220537
    ∷ row "F03430" "Lőrinci út / Bélatelepi út" 47452889 19220815
    ∷ row "F03431" "Bélatelepi út / Baross utca" 47450886 19224680
    ∷ row "F03432" "Bélatelepi út / Baross utca" 47451072 19226497
    ∷ row "F03433" "Ebergény utca" 47490901 19302376
    ∷ []
