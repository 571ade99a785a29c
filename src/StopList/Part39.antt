-- ===== src/StopList/Part39.antt =====
-- Lines 5871 to 6020 of bkk_uds/bkk_stop_list.h.
use mathlib.Core.List.{List, [], ◌∷◌}
use bkk_api.StopList.Row.{BkkStop, row}

unfoldable pub stops_39 : List BkkStop
stops_39 =
    row "L008077" "Pöttyös utca" 47468548 19116946
    ∷ row "L008082" "Népliget" 47475441 19098808
    ∷ row "L008084" "Semmelweis Klinikák" 47482834 19079176
    ∷ row "L008136" "Arany János utca" 47503063 19054531
    ∷ row "L008159" "Forgách utca" 47539383 19069597
    ∷ row "L008162" "Gyöngyösi utca" 47548691 19073233
    ∷ row "L008163" "Újpest-Városkapu" 47559045 19079574
    ∷ row "L008164" "Újpest-Városkapu" 47559006 19079279
    ∷ row "L008165" "Újpest-Városkapu" 47558950 19079384
    ∷ row "L008186" "Újpest-Központ" 47560429 19089916
    ∷ row "L056213" "Rákóczi tér" 47492722 19071817
    ∷ row "L056214" "II. János Pál pápa tér" 47495300 19077244
    ∷ row "LM1BUM" "Bajza utca (» Mexikói út)" 47511317 19072625
    ∷ row "LM1BUV" "Bajza utca (» Vörösmarty tér)" 47511324 19072364
    ∷ row "LM1BZM" "Bajcsy-Zsilinszky út (» Mexikói út)" 47499864 19055470
    ∷ row "LM1BZV" "Bajcsy-Zsilinszky út (» Vörösmarty tér)" 47499887 19055181
    ∷ row "LM1DF1" "Deák Ferenc tér (» Vörösmarty tér)" 47497778 19053095
    ∷ row "LM1DF2" "Deák Ferenc tér (» Mexikói út)" 47497594 19053350
    ∷ row "LM1DF3" "Deák Ferenc tér (M1 aluljáró)" 47497504 19054145
    ∷ row "LM1HTM" "Hősök tere (» Mexikói út)" 47514180 19076956
    ∷ row "LM1HTV" "Hősök tere (» Vörösmarty tér)" 47514330 19076732
    ∷ row "LM1KKM" "Kodály körönd (» Mexikói út)" 47509251 19069458
    ∷ row "LM1KKV" "Kodály körönd (» Vörösmarty tér)" 47509216 19069224
    ∷ row "LM1MUM" "Mexikói út" 47519524 19091103
    ∷ row "LM1MUV" "Mexikói út (» Vörösmarty tér)" 47519698 19091075
    ∷ row "LM1OKM" "Oktogon (» Mexikói út)" 47504927 19063414
    ∷ row "LM1OKV" "Oktogon (» Vörösmarty tér)" 47505239 19062922
    ∷ row "LM1OPM" "Opera (» Mexikói út)" 47502179 19058966
    ∷ row "LM1OPV" "Opera (» Vörösmarty tér)" 47502308 19058780
    ∷ row "LM1SFM" "Széchenyi fürdő (» Mexikói út)" 47517421 19080986
    ∷ row "LM1SFV" "Széchenyi fürdő (» Vörösmarty tér)" 47517575 19080975
    ∷ row "LM1VTM" "Vörösmarty tér (» Mexikói út)" 47496704 19050684
    ∷ row "LM1VTV" "Vörösmarty tér" 47496901 19050474
    ∷ row "LM1VUM" "Vörösmarty utca (» Mexikói út)" 47507227 19066445
    ∷ row "LM1VUV" "Vörösmarty utca (» Vörösmarty tér)" 47507197 19066198
    ∷ row "LM2AS1" "Astoria" 47494440 19060127
    ∷ row "LM2ASA" "Astoria [A]" 47494528 19059838
    ∷ row "LM2ASB" "Astoria [B]" 47494622 19060104
    ∷ row "LM2ASC" "Astoria [C]" 47494579 19060298
    ∷ row "LM2ASD" "Astoria [D]" 47494317 19060460
    ∷ row "LM2ASE" "Astoria [E]" 47494186 19060361
    ∷ row "LM2ASF" "Astoria [F]" 47494197 19060131
    ∷ row "LM2ASG" "Astoria [G]" 47494105 19059932
    ∷ row "LM2ASH" "Astoria [H]" 47494185 19059704
    ∷ row "LM2ASI" "Astoria [I]" 47494368 19059623
    ∷ row "LM2ASJ" "Astoria [J]" 47494476 19059689
    ∷ row "LM2BL1" "Blaha Lujza tér" 47497001 19070426
    ∷ row "LM2BLA" "Blaha Lujza tér [A]" 47497462 19070723
    ∷ row "LM2BLB" "Blaha Lujza tér [B]" 47497399 19070874
    ∷ row "LM2BLC" "Blaha Lujza tér [C]" 47497111 19070958
    ∷ row "LM2BLD" "Blaha Lujza tér [D]" 47496981 19070853
    ∷ row "LM2BLE" "Blaha Lujza tér [E]" 47496862 19070699
    ∷ row "LM2BLF" "Blaha Lujza tér [F]" 47496835 19070577
    ∷ row "LM2BLG" "Blaha Lujza tér [G]" 47496778 19070266
    ∷ row "LM2BLH" "Blaha Lujza tér [H]" 47497210 19070256
    ∷ row "LM2BLI" "Blaha Lujza tér [I]" 47497328 19070318
    ∷ row "LM2BT1" "Batthyány tér" 47506422 19038927
    ∷ row "LM2BTA" "Batthyány tér [A]" 47506627 19038902
    ∷ row "LM2BTB" "Batthyány tér [B]" 47506203 19039440
    ∷ row "LM2BTC" "Batthyány tér [C]" 47506196 19039313
    ∷ row "LM2BTD" "Batthyány tér [D]" 47506368 19038977
    ∷ row "LM2DF1" "Deák Ferenc tér (M2 aluljáró)" 47497493 19054104
    ∷ row "LM2DP1" "Déli pályaudvar" 47500375 19024802
    ∷ row "LM2KL1" "Kossuth Lajos tér" 47505475 19046620
    ∷ row "LM2KP1" "Keleti pályaudvar (Kerepesi út)" 47499860 19082865
    ∷ row "LM2OV1" "Örs vezér tere" 47502922 19135935
    ∷ row "LM2OV2" "Örs vezér tere" 47502922 19135935
    ∷ row "LM2OVA" "Örs vezér tere [A]" 47503588 19136476
    ∷ row "LM2OVB" "Örs vezér tere [B]" 47503578 19136870
    ∷ row "LM2OVC" "Örs vezér tere [C]" 47502637 19136890
    ∷ row "LM2OVD" "Örs vezér tere [D]" 47503000 19136104
    ∷ row "LM2OVE" "Örs vezér tere [E]" 47503664 19135953
    ∷ row "LM2PF1" "Puskás Ferenc Stadion (Hungária körút)" 47500385 19107153
    ∷ row "LM2PF2" "Puskás Ferenc Stadion (Ifjuság útja)" 47500147 19104824
    ∷ row "LM2PU1" "Pillangó utca" 47501297 19119883
    ∷ row "LM2PU2" "Pillangó utca [lift]" 47501322 19120232
    ∷ row "LM2SZ1" "Széll Kálmán tér" 47506982 19024828
    ∷ row "LM3AH1" "Göncz Árpád városközpont" 47532518 19067090
    ∷ row "LM3AH2" "Göncz Árpád városközpont" 47532844 19066792
    ∷ row "LM3AH3" "Göncz Árpád városközpont [lift]" 47532934 19066340
    ∷ row "LM3AH4" "Göncz Árpád városközpont [lift]" 47532930 19067060
    ∷ row "LM3AHA" "Göncz Árpád városközpont [A]" 47533153 19067298
    ∷ row "LM3AHB" "Göncz Árpád városközpont [B]" 47532572 19067481
    ∷ row "LM3AHC" "Göncz Árpád városközpont [C]" 47532228 19067231
    ∷ row "LM3AHD" "Göncz Árpád városközpont [D]" 47532009 19066915
    ∷ row "LM3AHE" "Göncz Árpád városközpont [E]" 47532369 19066144
    ∷ row "LM3AHF" "Göncz Árpád városközpont [F]" 47533008 19066186
    ∷ row "LM3AHG" "Göncz Árpád városközpont [G]" 47533294 19066579
    ∷ row "LM3CN1" "Corvin-negyed" 47485815 19070185
    ∷ row "LM3CN2" "Corvin-negyed [lift » M3]" 47486116 19069868
    ∷ row "LM3CNA" "Corvin-negyed [A]" 47486096 19070064
    ∷ row "LM3CNB" "Corvin-negyed [B]" 47486104 19070311
    ∷ row "LM3CNC" "Corvin-negyed [C]" 47485940 19070339
    ∷ row "LM3CND" "Corvin-negyed [D]" 47485615 19070272
    ∷ row "LM3CNE" "Corvin-negyed [E]" 47485586 19070101
    ∷ row "LM3CNF" "Corvin-negyed [F]" 47485607 19069988
    ∷ row "LM3CNG" "Corvin-negyed [G]" 47485569 19069692
    ∷ row "LM3CNH" "Corvin-negyed [lift]" 47485750 19069620
    ∷ row "LM3CNI" "Corvin-negyed [H]" 47486064 19069703
    ∷ row "LM3CNJ" "Corvin-negyed [I]" 47486116 19069868
    ∷ row "LM3DF1" "Deák Ferenc tér (M3 aluljáró)" 47497502 19054313
    ∷ row "LM3DG1" "Dózsa György út" 47524782 19063500
    ∷ row "LM3DG2" "Dózsa György út [lift » M3]" 47525016 19063170
    ∷ row "LM3DG3" "Dózsa György út [lift » M3 Újpest-Központ]" 47524444 19063345
    ∷ row "LM3DGA" "Dózsa György út [A]" 47524793 19063660
    ∷ row "LM3DGB" "Dózsa György út [B]" 47524356 19063815
    ∷ row "LM3DGC" "Dózsa György út [C]" 47524171 19063463
    ∷ row "LM3DGD" "Dózsa György út [D]" 47524390 19063008
    ∷ row "LM3DGE" "Dózsa György út [E]" 47524782 19062822
    ∷ row "LM3EU1" "Ecseri út [lift » M3 Kőbánya-Kispest]" 47470923 19110328
    ∷ row "LM3EU2" "Ecseri út [lift » M3 Újpest-Központ]" 47471112 19110461
    ∷ row "LM3EUA" "Ecseri út [A]" 47471145 19111255
    ∷ row "LM3EUB" "Ecseri út [B]" 47471017 19111590
    ∷ row "LM3EUC" "Ecseri út [C]" 47470809 19111204
    ∷ row "LM3EUD" "Ecseri út [D]" 47470548 19111006
    ∷ row "LM3EUE" "Ecseri út [E]" 47470693 19110601
    ∷ row "LM3FT1" "Ferenciek tere" 47493191 19055891
    ∷ row "LM3FT2" "Ferenciek tere [lift » M3]" 47492918 19055884
    ∷ row "LM3FTA" "Ferenciek tere [A]" 47493191 19055891
    ∷ row "LM3FTB" "Ferenciek tere [B]" 47493191 19055891
    ∷ row "LM3FTC" "Ferenciek tere [C]" 47493191 19055891
    ∷ row "LM3FTD" "Ferenciek tere [D]" 47493191 19055891
    ∷ row "LM3FU1" "Forgách utca [lift » M3 Újpest-Központ]" 47539146 19069709
    ∷ row "LM3FU2" "Forgách utca [lift » M3 Kőbánya-Kispest]" 47539200 19069231
    ∷ row "LM3GU1" "Gyöngyösi utca [lift » M3 Újpest-Központ]" 47548697 19073566
    ∷ row "LM3GU2" "Gyöngyösi utca [lift » M3 Kőbánya-Kispest]" 47548778 19072915
    ∷ row "LM3GU3" "Gyöngyösi utca [lift » M3 Kőbánya-Kispest]" 47548706 19072888
    ∷ row "LM3GUA" "Gyöngyösi utca [A]" 47549360 19073910
    ∷ row "LM3GUB" "Gyöngyösi utca [B]" 47548600 19073690
    ∷ row "LM3GUC" "Gyöngyösi utca [C]" 47548630 19072910
    ∷ row "LM3GUD" "Gyöngyösi utca [D]" 47548900 19073020
    ∷ row "LM3GUE" "Gyöngyösi utca [E]" 47549440 19073220
    ∷ row "LM3HU1" "Határ út" 47465396 19126472
    ∷ row "LM3HU2" "Határ út [lift » M3 Kőbánya-Kispest]" 47465640 19126600
    ∷ row "LM3HU3" "Határ út [lift » M3 Újpest-Központ]" 47465770 19126690
    ∷ row "LM3HUA" "Határ út [A]" 47465360 19126998
    ∷ row "LM3HUA1" "Határ út [lift » 50-es végállomás]" 47465318 19127055
    ∷ row "LM3HUB" "Határ út [B]" 47465129 19126484
    ∷ row "LM3HUB1" "Határ út [lift » Buszvégállomás]" 47465142 19126407
    ∷ row "LM3KK1" "Kőbánya-Kispest" 47463660 19148110
    ∷ row "LM3KKA" "Kőbánya-Kispest [A]" 47464458 19150126
    ∷ row "LM3KKB1" "Kőbánya-Kispest [B]" 47463522 19148065
    ∷ row "LM3KKB2" "Kőbánya-Kispest [B]" 47463891 19147041
    ∷ row "LM3KKC1" "Kőbánya-Kispest [C]" 47463160 19148663
    ∷ row "LM3KKC2" "Kőbánya-Kispest [C]" 47463251 19148301
    ∷ row "LM3KKC3" "Kőbánya-Kispest [C]" 47463439 19147581
    ∷ row "LM3KKD1" "Kőbánya-Kispest [D]" 47462947 19148547
    ∷ row "LM3KKD2" "Kőbánya-Kispest [D]" 47463028 19148196
    ∷ row "LM3KKD3" "Kőbánya-Kispest [D]" 47463210 19147445
    ∷ row "LM3KKF" "Kőbánya-Kispest [F]" 47462314 19148566
    ∷ []
