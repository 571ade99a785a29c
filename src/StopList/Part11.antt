-- ===== src/StopList/Part11.antt =====
-- Lines 1671 to 1820 of bkk_uds/bkk_stop_list.h.
use mathlib.Core.List.{List, [], ◌∷◌}
use bkk_api.StopList.Row.{BkkStop, row}

unfoldable pub stops_11 : List BkkStop
stops_11 =
    row "F00030" "Mátray utca" 47505965 19028598
    ∷ row "F00031" "Mátray utca" 47505866 19027988
    ∷ row "F00032" "Széna tér" 47507979 19029261
    ∷ row "F00033" "Széna tér" 47507782 19028184
    ∷ row "F00034" "Fazekas utca" 47508268 19034372
    ∷ row "F00035" "Fazekas utca" 47507989 19034133
    ∷ row "F00036" "Fazekas utca" 47507773 19033443
    ∷ row "F00045" "Donáti utca" 47501307 19036072
    ∷ row "F00047" "Clark Ádám tér" 47498312 19039816
    ∷ row "F00048" "Clark Ádám tér" 47498195 19040028
    ∷ row "F00049" "Clark Ádám tér" 47497671 19040663
    ∷ row "F00051" "Halász utca" 47502260 19039815
    ∷ row "F00052" "Halász utca" 47501784 19040028
    ∷ row "F00053" "Halász utca" 47502448 19039759
    ∷ row "F00056" "Halász utca" 47501764 19039029
    ∷ row "F00057" "Batthyány tér M+H" 47506002 19039456
    ∷ row "F00059" "Batthyány tér M+H" 47505885 19038023
    ∷ row "F00062" "Batthyány tér" 47507412 19036739
    ∷ row "F00063" "Batthyány tér" 47506826 19038103
    ∷ row "F00065" "Batthyány tér M+H (Bem rakpart)" 47507423 19039270
    ∷ row "F00066" "Batthyány tér M+H" 47506613 19038872
    ∷ row "F00067" "Batthyány tér M+H" 47505902 19039002
    ∷ row "F00068" "Mária tér" 47506738 19034794
    ∷ row "F00069" "Bécsi kapu tér" 47504553 19030683
    ∷ row "F00070" "Bécsi kapu tér" 47504751 19030324
    ∷ row "F00071" "Szentháromság tér" 47501324 19033710
    ∷ row "F00072" "Szentháromság tér" 47501306 19033896
    ∷ row "F00073" "Dísz tér" 47499398 19035990
    ∷ row "F00074" "Dísz tér" 47498950 19036113
    ∷ row "F00076" "Palota út, gyorslift" 47495182 19038529
    ∷ row "F00078" "Dózsa György tér" 47494426 19037932
    ∷ row "F00079" "Dózsa György tér" 47493860 19037494
    ∷ row "F00080" "Dózsa György tér" 47493770 19038224
    ∷ row "F00081" "Dózsa György tér" 47493698 19038463
    ∷ row "F00082" "Alagút utca" 47497853 19032981
    ∷ row "F00083" "Krisztina tér" 47496899 19033406
    ∷ row "F00084" "Alagút utca" 47496567 19034415
    ∷ row "F00085" "Krisztina tér" 47496881 19032117
    ∷ row "F00086" "Krisztina tér" 47496621 19032847
    ∷ row "F00087" "Krisztina tér" 47496899 19032742
    ∷ row "F00088" "Mikó utca" 47499237 19030844
    ∷ row "F00089" "Mikó utca" 47498365 19028997
    ∷ row "F00090" "Mikó utca" 47498374 19028747
    ∷ row "F00091" "Korlát utca" 47501917 19027405
    ∷ row "F00092" "Korlát utca" 47501719 19027432
    ∷ row "F00093" "Déli pályaudvar" 47499373 19024769
    ∷ row "F00094" "Déli pályaudvar" 47500450 19024604
    ∷ row "F00095" "Győri út" 47495234 19025205
    ∷ row "F00096" "Győri út" 47495198 19025855
    ∷ row "F00097" "Ág utca" 47495675 19029451
    ∷ row "F00098" "Ág utca" 47495451 19029425
    ∷ row "F00099" "Róka utca" 47494164 19028934
    ∷ row "F00100" "Naphegy tér" 47493445 19032478
    ∷ row "F00101" "Várkert Bazár" 47493114 19043161
    ∷ row "F00102" "Szarvas tér" 47492492 19042355
    ∷ row "F00103" "Döbrentei tér" 47491486 19043705
    ∷ row "F00104" "Döbrentei tér" 47491243 19043612
    ∷ row "F00105" "Döbrentei tér" 47491737 19043373
    ∷ row "F00106" "Várkert Bazár" 47493536 19044169
    ∷ row "F00107" "Várkert Bazár" 47493186 19044315
    ∷ row "F00108" "Rudas Gyógyfürdő" 47489840 19047208
    ∷ row "F00110" "Döbrentei tér" 47490074 19044767
    ∷ row "F00111" "Rudas Gyógyfürdő" 47489273 19046916
    ∷ row "F00112" "Rudas Gyógyfürdő" 47489075 19046903
    ∷ row "F00113" "Döbrentei tér" 47490182 19046863
    ∷ row "F00114" "Kapisztrán tér" 47504157 19029302
    ∷ row "F00115" "Szanatórium utca (Vadaspark)" 47520539 18938771
    ∷ row "F00116" "Szanatórium utca (Vadaspark)" 47520206 18938865
    ∷ row "F00117" "Kökörcsin utca" 47577030 18938375
    ∷ row "F00118" "Kökörcsin utca" 47576041 18938842
    ∷ row "F00119" "Fenyőgyöngye" 47540316 19006138
    ∷ row "F00120" "Nyereg út" 47537279 19014083
    ∷ row "F00121" "Nyereg út" 47537593 19013551
    ∷ row "F00122" "Pál-völgyi cseppkőbarlang" 47533160 19016503
    ∷ row "F00123" "Pál-völgyi cseppkőbarlang" 47532881 19016755
    ∷ row "F00124" "Csalit utca" 47529481 19016412
    ∷ row "F00125" "Csalit utca" 47529338 19017116
    ∷ row "F00126" "Virág Benedek utca" 47530635 19027062
    ∷ row "F00127" "Szépvölgyi út" 47530770 19026424
    ∷ row "F00128" "Folyondár utca" 47529466 19030077
    ∷ row "F00129" "Folyondár utca (Szépvölgyi út)" 47529215 19030475
    ∷ row "F00130" "Ürömi utca" 47528172 19033304
    ∷ row "F00131" "Ürömi utca" 47528010 19033357
    ∷ row "F00132" "Kolosy tér" 47527722 19036650
    ∷ row "F00133" "Kolosy tér" 47527821 19036863
    ∷ row "F00134" "Kolosy tér" 47527776 19037208
    ∷ row "F00135" "Kolosy tér" 47527983 19037660
    ∷ row "F00136" "Kolosy tér" 47527687 19037474
    ∷ row "F00137" "Kolosy tér" 47528586 19039001
    ∷ row "F00138" "Kolosy tér" 47526913 19038204
    ∷ row "F00141" "Margitsziget / Margit híd" 47514717 19042479
    ∷ row "F00142" "Margitsziget / Margit híd" 47514447 19044324
    ∷ row "F00143" "Margitsziget / Margit híd" 47515986 19043995
    ∷ row "F00144" "Margitsziget / Margit híd" 47515779 19043743
    ∷ row "F00146" "Margitsziget / Margit híd" 47514629 19043264
    ∷ row "F00147" "Labanc út" 47518988 18981633
    ∷ row "F00148" "Labanc út" 47518970 18980982
    ∷ row "F00149" "Dénes utca" 47521633 18968511
    ∷ row "F00150" "Dénes utca" 47521624 18967940
    ∷ row "F00151" "Baba utca" 47524228 19013255
    ∷ row "F00152" "Baba utca" 47524237 19012936
    ∷ row "F00153" "Garas utca" 47511548 19019184
    ∷ row "F00154" "Garas utca" 47511242 19019875
    ∷ row "F00155" "Városmajor" 47509568 19014008
    ∷ row "F00156" "Városmajor" 47509595 19013212
    ∷ row "F00157" "Városmajor" 47509550 19013012
    ∷ row "F00158" "Városmajor" 47509531 19013698
    ∷ row "F00159" "Szent János Kórház" 47510330 19008406
    ∷ row "F00160" "Nagyajtai utca" 47513548 19003093
    ∷ row "F00161" "Nagyajtai utca" 47513548 19002854
    ∷ row "F00162" "Nagyajtai utca" 47513674 19002655
    ∷ row "F00163" "Nagyajtai utca" 47513548 19002642
    ∷ row "F00164" "Budagyöngye" 47516038 18999533
    ∷ row "F00165" "Budagyöngye" 47516092 18999188
    ∷ row "F00166" "Budagyöngye" 47516649 18997979
    ∷ row "F00167" "Budagyöngye" 47516146 18998975
    ∷ row "F00168" "Szépilona" 47517664 18995110
    ∷ row "F00169" "Szépilona" 47517494 18992955
    ∷ row "F00170" "Szépilona" 47517520 18995270
    ∷ row "F00171" "Kuruclesi út" 47518462 18985346
    ∷ row "F00172" "Kuruclesi út" 47518432 18984581
    ∷ row "F00173" "Vízművek" 47520170 18973333
    ∷ row "F00174" "Vízművek" 47520036 18973360
    ∷ row "F00175" "Bölcsőde" 47523625 18962055
    ∷ row "F00176" "Bölcsőde" 47523661 18961524
    ∷ row "F00177" "Irén utca" 47524594 18958747
    ∷ row "F00178" "Irén utca" 47524468 18958734
    ∷ row "F00179" "Szépjuhászné, Gyermekvasút" 47527298 18954068
    ∷ row "F00180" "Szépjuhászné, Gyermekvasút" 47527073 18954042
    ∷ row "F00181" "Laktanya" 47526789 18948279
    ∷ row "F00182" "Laktanya" 47526663 18948412
    ∷ row "F00183" "Országos Korányi Intézet" 47522736 18941568
    ∷ row "F00184" "Országos Korányi Intézet" 47522367 18941158
    ∷ row "F00187" "Bem József tér" 47512055 19039322
    ∷ row "F00188" "Bem József tér" 47511308 19038221
    ∷ row "F00189" "Margit híd, budai hídfő H" 47514564 19038894
    ∷ row "F00190" "Margit híd, budai hídfő H" 47514447 19038828
    ∷ row "F00191" "Margit híd, budai hídfő H" 47514680 19036650
    ∷ row "F00192" "Margit híd, budai hídfő H" 47514653 19038164
    ∷ row "F00193" "Horvát utca" 47511119 19034570
    ∷ row "F00194" "Horvát utca" 47510238 19034451
    ∷ row "F00195" "Mechwart liget" 47511344 19032247
    ∷ row "F00196" "Mechwart liget" 47511236 19032074
    ∷ row "F00197" "Mechwart liget" 47510534 19030548
    ∷ row "F00198" "Mechwart liget" 47510767 19031447
    ∷ row "F00199" "Mechwart liget" 47510965 19032111
    ∷ row "F00200" "Mechwart liget" 47510516 19031225
    ∷ row "F00201" "Füge utca" 47513933 19027387
    ∷ row "F00202" "Füge utca" 47513942 19026750
    ∷ row "F00203" "Rét utca" 47514589 19024294
    ∷ []
