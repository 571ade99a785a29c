-- ===== src/StopList/Part18.antt =====
-- Lines 2721 to 2870 of bkk_uds/bkk_stop_list.h.
use mathlib.Core.List.{List, [], ◌∷◌}
use bkk_api.StopList.Row.{BkkStop, row}

unfoldable pub stops_18 : List BkkStop
stops_18 =
    row "F01219" "Orczy tér" 47489805 19090560
    ∷ row "F01220" "Orczy tér" 47490273 19090204
    ∷ row "F01221" "Kálvária tér" 47489912 19085917
    ∷ row "F01222" "Kálvária tér" 47489525 19086089
    ∷ row "F01223" "Kálvária tér" 47488890 19085146
    ∷ row "F01224" "Kálvária tér" 47488791 19085371
    ∷ row "F01225" "Csobánc utca" 47488403 19088250
    ∷ row "F01226" "Golgota tér" 47486423 19092866
    ∷ row "F01227" "Golgota tér" 47486459 19092561
    ∷ row "F01228" "Golgota tér" 47484992 19092865
    ∷ row "F01229" "Golgota tér" 47485469 19092919
    ∷ row "F01232" "Semmelweis Klinikák" 47483413 19077030
    ∷ row "F01233" "Semmelweis Klinikák" 47482872 19078425
    ∷ row "F01234" "Semmelweis Klinikák M" 47482334 19080113
    ∷ row "F01235" "Semmelweis Klinikák M" 47482370 19079436
    ∷ row "F01236" "Elnök utca" 47481224 19093419
    ∷ row "F01237" "Elnök utca" 47481763 19093460
    ∷ row "F01239" "Elnök utca" 47482213 19093473
    ∷ row "F01240" "Bláthy Ottó utca" 47483497 19099737
    ∷ row "F01241" "Bláthy Ottó utca" 47483605 19098914
    ∷ row "F01245" "Nagyvárad tér M" 47479381 19089875
    ∷ row "F01246" "Nagyvárad tér M" 47479489 19090340
    ∷ row "F01247" "Nagyvárad tér M" 47479390 19090406
    ∷ row "F01248" "Nagyvárad tér M" 47478868 19090326
    ∷ row "F01250" "Arena Mall bevásárlóközpont" 47499708 19089851
    ∷ row "F01251" "Arena Mall bevásárlóközpont" 47499447 19091311
    ∷ row "F01252" "Nagyvárad tér" 47478999 19089768
    ∷ row "F01253" "Nagyvárad tér" 47478365 19091071
    ∷ row "F01256" "Népliget M" 47476330 19099513
    ∷ row "F01257" "Vajda Péter utca" 47481004 19102680
    ∷ row "F01258" "Vajda Péter utca (Villám utca)" 47482443 19102840
    ∷ row "F01260" "Vajda Péter utca (Villám utca)" 47482389 19102495
    ∷ row "F01262" "Vajda Péter utca" 47481543 19103636
    ∷ row "F01263" "Kőbányai út 31." 47487614 19103854
    ∷ row "F01264" "Kőbányai út 31." 47487632 19104120
    ∷ row "F01265" "Kőbányai út / Könyves Kálmán körút" 47486524 19108205
    ∷ row "F01266" "Kőbányai út / Könyves Kálmán körút" 47486343 19108577
    ∷ row "F01267" "Kőbányai út / Könyves Kálmán körút" 47486740 19106971
    ∷ row "F01268" "Kőbányai út / Könyves Kálmán körút" 47486164 19107130
    ∷ row "F01269" "Kőbányai út / Könyves Kálmán körút" 47485876 19107541
    ∷ row "F01270" "Kőbányai út / Könyves Kálmán körút" 47486155 19108284
    ∷ row "F01271" "Hidegkuti Nándor Stadion" 47490040 19108249
    ∷ row "F01272" "Hidegkuti Nándor Stadion" 47489644 19108647
    ∷ row "F01273" "Hidegkuti Nándor Stadion" 47490993 19109232
    ∷ row "F01274" "Hidegkuti Nándor Stadion" 47490192 19109669
    ∷ row "F01275" "Hidegkuti Nándor Stadion" 47491216 19108982
    ∷ row "F01276" "Ciprus utca" 47494033 19109275
    ∷ row "F01277" "Ciprus utca" 47492837 19108770
    ∷ row "F01278" "Asztalos Sándor út" 47490096 19105038
    ∷ row "F01279" "Asztalos Sándor út" 47490015 19105515
    ∷ row "F01280" "Salgótarjáni utca, temető" 47491026 19096334
    ∷ row "F01281" "Salgótarjáni utca, temető" 47490864 19097037
    ∷ row "F01282" "Népliget" 47475479 19099291
    ∷ row "F01283" "Népliget" 47474913 19100672
    ∷ row "F01284" "Népliget M" 47474583 19100816
    ∷ row "F01285" "Népliget M" 47475375 19099610
    ∷ row "F01286" "Népliget M" 47475893 19098895
    ∷ row "F01289" "Kálvin tér" 47490170 19060640
    ∷ row "F01290" "Kálvin tér" 47489490 19061920
    ∷ row "F01291" "Blaha Lujza tér" 47496638 19068841
    ∷ row "F01292" "Blaha Lujza tér" 47497006 19070274
    ∷ row "F01293" "Blaha Lujza tér M" 47496484 19070446
    ∷ row "F01294" "Blaha Lujza tér M (Népszínház utca)" 47496151 19071256
    ∷ row "F01295" "Blaha Lujza tér M (Népszínház utca)" 47495504 19071030
    ∷ row "F01296" "Blaha Lujza tér M (Népszínház utca)" 47496088 19071534
    ∷ row "F01297" "Blaha Lujza tér M (Népszínház utca)" 47496071 19071336
    ∷ row "F01298" "Blaha Lujza tér M (Népszínház utca)" 47495648 19072742
    ∷ row "F01300" "II. János Pál pápa tér M" 47494819 19076550
    ∷ row "F01301" "II. János Pál pápa tér M" 47494666 19077599
    ∷ row "F01302" "II. János Pál pápa tér M" 47494099 19077373
    ∷ row "F01303" "II. János Pál pápa tér M" 47494567 19076855
    ∷ row "F01307" "Dologház utca" 47496535 19083187
    ∷ row "F01309" "Dologház utca" 47496445 19083120
    ∷ row "F01310" "Dologház utca" 47496364 19083399
    ∷ row "F01311" "Keleti pályaudvar M" 47499070 19082552
    ∷ row "F01314" "Keleti pályaudvar M" 47500277 19080999
    ∷ row "F01316" "Puskás Ferenc Stadion M" 47499819 19103708
    ∷ row "F01317" "Puskás Ferenc Stadion M" 47500098 19103522
    ∷ row "F01319" "Puskás Ferenc Stadion M" 47500654 19107850
    ∷ row "F01320" "Puskás Ferenc Stadion M" 47500815 19108367
    ∷ row "F01321" "Puskás Ferenc Stadion M" 47500113 19109508
    ∷ row "F01322" "Puskás Ferenc Stadion M" 47500418 19108157
    ∷ row "F01323" "Puskás Ferenc Stadion M" 47500966 19108091
    ∷ row "F01324" "Puskás Ferenc Stadion" 47500213 19104767
    ∷ row "F01325" "Puskás Ferenc Stadion" 47500174 19106381
    ∷ row "F01326" "Hős utca" 47496776 19109305
    ∷ row "F01327" "Hős utca" 47496777 19108787
    ∷ row "F01328" "Hős utca" 47496271 19109134
    ∷ row "F01329" "Hős utca" 47495722 19109080
    ∷ row "F01330" "Teleki László tér" 47493604 19081884
    ∷ row "F01331" "Teleki László tér" 47493549 19082787
    ∷ row "F01333" "Kőris utca" 47487168 19089219
    ∷ row "F01334" "Orczy út" 47488897 19091276
    ∷ row "F01335" "Keleti pályaudvar" 47499778 19081282
    ∷ row "F01336" "Keleti pályaudvar" 47499683 19082881
    ∷ row "F01339" "Ráday utca" 47485548 19065930
    ∷ row "F01340" "Lónyay utca" 47483912 19062454
    ∷ row "F01341" "Koppány utca" 47466162 19081204
    ∷ row "F01342" "Koppány utca" 47465989 19081497
    ∷ row "F01343" "Zsil utca" 47482946 19062731
    ∷ row "F01345" "Lónyay utca" 47482418 19064775
    ∷ row "F01346" "Zsil utca" 47483036 19062439
    ∷ row "F01349" "Kén utca" 47457031 19089142
    ∷ row "F01350" "Kén utca" 47457319 19089142
    ∷ row "F01351" "Beöthy utca" 47460370 19082460
    ∷ row "F01352" "Beöthy utca" 47460343 19082155
    ∷ row "F01355" "Földváry utca" 47462763 19080141
    ∷ row "F01356" "Koppány utca" 47465426 19078392
    ∷ row "F01357" "Fegyvergyár utca" 47449015 19093684
    ∷ row "F01358" "Fegyvergyár utca" 47448322 19094227
    ∷ row "F01359" "Soroksári út 158." 47448630 19090422
    ∷ row "F01360" "Soroksári út 158." 47447415 19090792
    ∷ row "F01363" "Börzsöny utca" 47467085 19111844
    ∷ row "F01364" "Börzsöny utca" 47466797 19112003
    ∷ row "F01365" "Merényi Gusztáv Kórház" 47467891 19101154
    ∷ row "F01366" "Epreserdő utca" 47459705 19111745
    ∷ row "F01367" "Epreserdő utca" 47459786 19111520
    ∷ row "F01368" "Aranyvirág sétány" 47467689 19109816
    ∷ row "F01369" "Aranyvirág sétány" 47467563 19109219
    ∷ row "F01370" "Nagykőrösi út / Határ út" 47454618 19113036
    ∷ row "F01371" "Nagykőrösi út / Határ út" 47454285 19114295
    ∷ row "F01372" "Boráros tér H" 47480718 19067693
    ∷ row "F01373" "Boráros tér H" 47480149 19066074
    ∷ row "F01374" "Boráros tér H" 47480400 19066697
    ∷ row "F01375" "Boráros tér H" 47480323 19066048
    ∷ row "F01376" "Boráros tér H" 47479621 19067242
    ∷ row "F01378" "Mester utca / Ferenc körút" 47482199 19068463
    ∷ row "F01379" "Mester utca / Ferenc körút" 47481608 19068702
    ∷ row "F01380" "Mester utca / Ferenc körút" 47482775 19068848
    ∷ row "F01381" "Bokréta utca" 47479527 19072243
    ∷ row "F01382" "Bokréta utca" 47479116 19072655
    ∷ row "F01384" "Haller utca / Soroksári út" 47474022 19070622
    ∷ row "F01386" "Haller utca / Soroksári út" 47475627 19069788
    ∷ row "F01388" "Haller utca / Soroksári út" 47475285 19071658
    ∷ row "F01390" "Haller utca / Mester utca" 47476054 19076354
    ∷ row "F01391" "Haller utca / Mester utca" 47476099 19076819
    ∷ row "F01393" "Haller utca / Mester utca" 47475649 19077774
    ∷ row "F01394" "Haller utca / Mester utca" 47475928 19077615
    ∷ row "F01395" "Haller utca / Mester utca" 47476219 19078544
    ∷ row "F01396" "Müpa - Nemzeti Színház H" 47470972 19073181
    ∷ row "F01397" "Müpa - Nemzeti Színház H" 47471269 19072969
    ∷ row "F01398" "Vágóhíd utca" 47473403 19079922
    ∷ row "F01399" "Vágóhíd utca" 47473151 19080293
    ∷ row "F01401" "Közvágóhíd H" 47467527 19075886
    ∷ row "F01402" "Közvágóhíd H" 47467527 19075886
    ∷ row "F01403" "Közvágóhíd H" 47467873 19075740
    ∷ row "F01404" "Közvágóhíd H" 47467684 19076523
    ∷ row "F01407" "Közvágóhíd H (Kvassay Jenő út)" 47466218 19076257
    ∷ row "F01408" "József Attila ltp., Távíró utca" 47460599 19114913
    ∷ row "F01411" "Nemzeti Atlétikai Stadion" 47465036 19073484
    ∷ []
