-- ===== src/StopList/Part26.antt =====
-- Lines 3921 to 4070 of bkk_uds/bkk_stop_list.h.
use mathlib.Core.List.{List, [], ◌∷◌}
use bkk_api.StopList.Row.{BkkStop, row}

unfoldable pub stops_26 : List BkkStop
stops_26 =
    row "F02595" "Lehel utca / Róbert Károly körút" 47524903 19078660
    ∷ row "F02596" "Lehel utca / Róbert Károly körút" 47525795 19077536
    ∷ row "F02597" "Lehel utca / Róbert Károly körút" 47526227 19076952
    ∷ row "F02598" "Lehel utca / Róbert Károly körút" 47526336 19078348
    ∷ row "F02599" "Göncz Árpád városközpont M" 47531472 19068057
    ∷ row "F02600" "Göncz Árpád városközpont M" 47533002 19066118
    ∷ row "F02601" "Göncz Árpád városközpont M" 47533613 19066849
    ∷ row "F02602" "Göncz Árpád városközpont M" 47533703 19065561
    ∷ row "F02604" "Göncz Árpád városközpont M" 47533559 19067434
    ∷ row "F02605" "Göncz Árpád városközpont M" 47533388 19067367
    ∷ row "F02606" "Tisza utca" 47523837 19059397
    ∷ row "F02608" "Dózsa György út M" 47524817 19062438
    ∷ row "F02609" "Dózsa György út M" 47525204 19063792
    ∷ row "F02610" "Dózsa György út M" 47523999 19063752
    ∷ row "F02611" "Dózsa György út M" 47523918 19062796
    ∷ row "F02612" "Lehel tér M (Gogol utca)" 47519601 19060817
    ∷ row "F02613" "Lehel tér" 47518659 19060859
    ∷ row "F02614" "Lehel tér" 47517595 19060285
    ∷ row "F02615" "Lehel tér M" 47517354 19060723
    ∷ row "F02616" "Lehel tér M" 47517892 19060245
    ∷ row "F02617" "Lehel tér M" 47517271 19060630
    ∷ row "F02618" "Lehel tér M" 47517181 19061054
    ∷ row "F02619" "Lehel tér M" 47516156 19059515
    ∷ row "F02620" "Lehel utca / Dózsa György út" 47521309 19068598
    ∷ row "F02621" "Lehel utca / Dózsa György út" 47521014 19069289
    ∷ row "F02623" "Lehel utca / Dózsa György út" 47520427 19069660
    ∷ row "F02624" "Lehel utca / Dózsa György út" 47520751 19069009
    ∷ row "F02625" "Lehel utca / Dózsa György út" 47520706 19068611
    ∷ row "F02626" "Lehel utca / Dózsa György út" 47521092 19069793
    ∷ row "F02627" "Vágány utca / Róbert Károly körút" 47522187 19081531
    ∷ row "F02628" "Vágány utca / Róbert Károly körút" 47522052 19081995
    ∷ row "F02629" "Vágány utca / Róbert Károly körút" 47522799 19080721
    ∷ row "F02630" "Vágány utca / Róbert Károly körút" 47524516 19081970
    ∷ row "F02631" "Vágány utca / Róbert Károly körút" 47523653 19080987
    ∷ row "F02632" "Vágány utca / Róbert Károly körút" 47523257 19081478
    ∷ row "F02633" "Vágány utca / Róbert Károly körút" 47523869 19080244
    ∷ row "F02634" "Vágány utca / Róbert Károly körút" 47524139 19080496
    ∷ row "F02635" "Petneházy utca" 47531279 19085680
    ∷ row "F02636" "Petneházy utca" 47531288 19085945
    ∷ row "F02637" "Göncz Árpád városközpont" 47533217 19067089
    ∷ row "F02638" "Göncz Árpád városközpont" 47532171 19066471
    ∷ row "F02639" "Kassák Lajos utca" 47522532 19066579
    ∷ row "F02640" "Kassák Lajos utca" 47522199 19066739
    ∷ row "F02641" "Honvédkórház" 47529816 19071522
    ∷ row "F02642" "Honvédkórház" 47530438 19070181
    ∷ row "F02643" "Honvédkórház" 47530069 19070699
    ∷ row "F02644" "Honvédkórház" 47529376 19071443
    ∷ row "F02645" "Szegedi út" 47528653 19084137
    ∷ row "F02646" "Szegedi út" 47528167 19083593
    ∷ row "F02647" "Szegedi út" 47527664 19083818
    ∷ row "F02648" "Szegedi út" 47527502 19083725
    ∷ row "F02649" "Radnóti Miklós utca" 47515491 19051044
    ∷ row "F02650" "Radnóti Miklós utca" 47515860 19049783
    ∷ row "F02653" "Angyalföld vasútállomás" 47549166 19089890
    ∷ row "F02654" "Angyalföld vasútállomás" 47548968 19090355
    ∷ row "F02655" "Rokolya utca" 47541746 19092049
    ∷ row "F02656" "Rokolya utca" 47541719 19091757
    ∷ row "F02657" "Kucsma utca" 47544470 19093632
    ∷ row "F02658" "Kucsma utca" 47544560 19093433
    ∷ row "F02659" "Rokolya utca" 47542539 19087016
    ∷ row "F02660" "Rokolya utca" 47542701 19086976
    ∷ row "F02661" "Rokolya utca" 47542278 19086989
    ∷ row "F02662" "Rokolya utca" 47541972 19086471
    ∷ row "F02663" "Rozsnyay utca" 47540212 19077477
    ∷ row "F02664" "Rozsnyay utca" 47539475 19076826
    ∷ row "F02665" "Frangepán utca" 47536417 19075417
    ∷ row "F02666" "Fáy utca" 47537119 19075975
    ∷ row "F02667" "Hun utca" 47524185 19075211
    ∷ row "F02668" "Hun utca" 47523961 19074946
    ∷ row "F02669" "Hun utca" 47523907 19074521
    ∷ row "F02670" "Hun utca" 47524275 19075676
    ∷ row "F02671" "Fáy utca" 47534435 19087515
    ∷ row "F02672" "Fáy utca" 47534003 19087514
    ∷ row "F02673" "Frangepán utca" 47534365 19082521
    ∷ row "F02674" "Frangepán utca" 47533945 19082177
    ∷ row "F02675" "Frangepán utca" 47534356 19082255
    ∷ row "F02676" "Frangepán utca" 47535084 19083066
    ∷ row "F02677" "Forgách utca M" 47537767 19070291
    ∷ row "F02678" "Forgách utca M" 47539485 19069481
    ∷ row "F02679" "Forgách utca M" 47539998 19070145
    ∷ row "F02680" "Dózsa György út" 47525430 19063737
    ∷ row "F02681" "Dózsa György út" 47524358 19063088
    ∷ row "F02682" "Forgách utca" 47539160 19069648
    ∷ row "F02683" "Forgách utca" 47538163 19069055
    ∷ row "F02684" "Gyöngyösi utca" 47549394 19073575
    ∷ row "F02685" "Gyöngyösi utca" 47548374 19073019
    ∷ row "F02687" "Árvavár utca" 47535232 19115591
    ∷ row "F02688" "Árvavár utca" 47535474 19116136
    ∷ row "F02690" "Rákosszentmihály vasútállomás" 47519648 19148326
    ∷ row "F02692" "Állatkert" 47517763 19077678
    ∷ row "F02693" "Állatkert" 47517718 19077863
    ∷ row "F02694" "Széchenyi fürdő M" 47519237 19082445
    ∷ row "F02695" "Széchenyi fürdő M" 47519066 19081170
    ∷ row "F02696" "Széchenyi fürdő" 47517508 19080980
    ∷ row "F02697" "Széchenyi fürdő" 47517407 19081481
    ∷ row "F02698" "Kós Károly sétány" 47518777 19085153
    ∷ row "F02699" "Bethesda utca" 47517922 19086693
    ∷ row "F02700" "Bethesda utca" 47517382 19087183
    ∷ row "F02701" "Ciklámen utca" 47515511 19089943
    ∷ row "F02702" "Ciklámen utca" 47515691 19090010
    ∷ row "F02703" "Ciklámen utca" 47515600 19090554
    ∷ row "F02704" "Ciklámen utca" 47515546 19090780
    ∷ row "F02705" "Olof Palme sétány" 47511987 19085055
    ∷ row "F02706" "Olof Palme sétány" 47512499 19085560
    ∷ row "F02707" "Dvořák sétány" 47510251 19083886
    ∷ row "F02708" "Dvořák sétány" 47510377 19084497
    ∷ row "F02709" "Ötvenhatosok tere" 47507147 19086459
    ∷ row "F02711" "Zichy Géza utca" 47510033 19089926
    ∷ row "F02712" "Zichy Géza utca" 47509879 19090046
    ∷ row "F02713" "Vakok Intézete" 47513549 19093168
    ∷ row "F02714" "Vakok Intézete" 47512550 19093260
    ∷ row "F02715" "Vakok Intézete" 47512424 19094614
    ∷ row "F02716" "Cházár András utca" 47505814 19091582
    ∷ row "F02717" "Cházár András utca" 47505868 19091330
    ∷ row "F02718" "Stefánia út / Thököly út" 47508835 19094491
    ∷ row "F02720" "Stefánia út / Thököly út" 47507936 19095260
    ∷ row "F02722" "Stefánia út / Thököly út" 47508124 19094266
    ∷ row "F02723" "Stefánia út / Thököly út" 47508700 19095394
    ∷ row "F02724" "Zugló vasútállomás (Hermina út)" 47510642 19097241
    ∷ row "F02725" "Zugló vasútállomás" 47511145 19098662
    ∷ row "F02726" "Zugló vasútállomás (Hermina út)" 47510813 19097825
    ∷ row "F02727" "Zugló vasútállomás" 47511586 19098436
    ∷ row "F02729" "Zugló vasútállomás" 47511370 19099458
    ∷ row "F02730" "Zugló vasútállomás" 47511720 19099153
    ∷ row "F02731" "Zugló vasútállomás" 47510928 19099579
    ∷ row "F02732" "Zugló vasútállomás" 47511333 19099141
    ∷ row "F02733" "Egressy út / Stefánia út" 47504768 19099664
    ∷ row "F02734" "Egressy út / Stefánia út" 47504785 19100806
    ∷ row "F02735" "Egressy út / Stefánia út" 47504902 19101390
    ∷ row "F02736" "Egressy út / Stefánia út" 47504525 19099823
    ∷ row "F02737" "Szobránc köz" 47503336 19103698
    ∷ row "F02738" "Szobránc köz" 47503138 19103897
    ∷ row "F02739" "Egressy út / Hungária körút" 47507014 19104512
    ∷ row "F02740" "Egressy út / Hungária körút" 47507040 19105680
    ∷ row "F02741" "Egressy út / Hungária körút" 47506906 19105547
    ∷ row "F02742" "Egressy út / Hungária körút" 47506834 19104047
    ∷ row "F02743" "Egressy út / Hungária körút" 47507184 19104022
    ∷ row "F02744" "Egressy út / Hungária körút" 47506779 19104460
    ∷ row "F02745" "Jeszenák János utca" 47511922 19124682
    ∷ row "F02746" "Róna utca" 47506194 19123320
    ∷ row "F02747" "Róna utca" 47506167 19123638
    ∷ row "F02748" "Pongrátz Gergely tér" 47509517 19128970
    ∷ row "F02749" "Pongrátz Gergely tér" 47509761 19128316
    ∷ row "F02750" "Pongrátz Gergely tér" 47509096 19128501
    ∷ row "F02751" "Pongrátz Gergely tér" 47508916 19128567
    ∷ row "F02752" "Pongrátz Gergely tér" 47509167 19129536
    ∷ row "F02753" "Pongrátz Gergely tér" 47509310 19129500
    ∷ row "F02754" "Bánki Donát utca" 47506078 19134443
    ∷ row "F02755" "Örs vezér tere M+H" 47504404 19136551
    ∷ row "F02756" "Örs vezér tere M+H" 47504674 19136485
    ∷ []
