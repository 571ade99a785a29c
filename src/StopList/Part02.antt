-- ===== src/StopList/Part02.antt =====
-- Lines 321 to 470 of bkk_uds/bkk_stop_list.h.
use mathlib.Core.List.{List, [], ◌∷◌}
use bkk_api.StopList.Row.{BkkStop, row}

unfoldable pub stops_02 : List BkkStop
stops_02 =
    row "008647" "Áruházi bekötőút" 47386519 19023121
    ∷ row "008649" "Székesdűlő, ipartelep" 47615155 19109268
    ∷ row "008650" "Székesdűlő, ipartelep" 47614760 19108789
    ∷ row "008651" "Auchan Sziget áruház" 47384361 19025810
    ∷ row "008652" "Auchan Sziget áruház" 47384163 19025969
    ∷ row "008670" "Auchan Liget" 47541205 19247030
    ∷ row "008681" "Hidegkuti Nándor Stadion" 47490533 19110469
    ∷ row "008684" "Albertfalva kitérő" 47452747 19038524
    ∷ row "008685" "Albertfalva kitérő" 47452720 19038922
    ∷ row "008690" "Budaörs vasútállomás" 47448184 18964863
    ∷ row "008691" "Angeli utca / Nagytétényi út" 47390942 18981735
    ∷ row "008692" "Felsőcsatári köz" 47458778 19177103
    ∷ row "008694" "Köztelek utca" 47486933 19067178
    ∷ row "008697" "Újpest-központ M" 47560724 19090125
    ∷ row "008702" "Ferencvárosi rendelőintézet" 47477155 19075785
    ∷ row "008708" "Vízművek lakótelep" 47597742 19091577
    ∷ row "008724" "Albertirsai út" 47500874 19116122
    ∷ row "008725" "Puskás Ferenc Stadion M" 47499898 19104838
    ∷ row "008731" "Budagyöngye" 47516074 18998922
    ∷ row "008736" "Dániel út" 47512852 18995009
    ∷ row "008737" "Dániel út" 47512834 18994743
    ∷ row "008740" "Újbuda-központ M" 47474654 19046424
    ∷ row "008750" "Batthyány tér M+H" 47505696 19039323
    ∷ row "008754" "Pestszentimre vasútállomás (Dózsa Gy.u.)" 47403548 19185706
    ∷ row "008770" "Puskás Ferenc Stadion M" 47499864 19104507
    ∷ row "008772" "Pestszentlőrinc vasútállomás" 47454622 19181767
    ∷ row "008775" "Ilonatelep H" 47525775 19228634
    ∷ row "008782" "Blaha Lujza tér M" 47496844 19069066
    ∷ row "008785" "Puskás Ferenc Stadion M" 47499925 19105183
    ∷ row "008788" "Kőérberek" 47445299 18999585
    ∷ row "008789" "Kőérberek" 47445218 19000036
    ∷ row "008793" "Regényes utca" 47429395 19020648
    ∷ row "008801" "Savoya Park" 47436522 19039985
    ∷ row "008802" "Savoya Park" 47435847 19042385
    ∷ row "008810" "Vecsés, Fő út" 47419045 19248374
    ∷ row "008822" "Budakalász, Auchan áruház" 47611510 19062328
    ∷ row "008823" "Szigetszentmárton-Szigetújfalu H" 47228749 18946095
    ∷ row "008832" "Szakorvosi rendelőintézet" 47443848 19181104
    ∷ row "008834" "Szigetcsép H" 47270713 18956612
    ∷ row "008835" "Földváry utca" 47463385 19083750
    ∷ row "008841" "Íves út" 47592824 19107979
    ∷ row "008842" "Íves út" 47592582 19106650
    ∷ row "008844" "Egressy út / Vezér utca" 47519260 19126312
    ∷ row "008846" "Méhecske utca" 47448009 18947805
    ∷ row "008847" "Méhecske utca" 47447991 18947991
    ∷ row "008850" "Mikszáth Kálmán utca" 47451147 19176786
    ∷ row "008863" "Gőzmozdony utca" 47470028 19157173
    ∷ row "008864" "Savoya Park" 47435991 19041510
    ∷ row "008865" "Savoya Park" 47436324 19041218
    ∷ row "008873" "Földváry utca" 47463133 19083803
    ∷ row "008874" "Timót utca" 47452167 19091904
    ∷ row "008875" "Puskás Ferenc Stadion M" 47500133 19107035
    ∷ row "008893" "Csepeli átjáró" 47436343 19092559
    ∷ row "008894" "Vízisport utca" 47433933 19091311
    ∷ row "008895" "Teremszeg utca" 47433006 19092212
    ∷ row "008896" "Pesterzsébet vasútállomás" 47433409 19096269
    ∷ row "008898" "Szakorvosi rendelő" 47440692 19102002
    ∷ row "008900" "Göncz Árpád városközpont M" 47531877 19066158
    ∷ row "008903" "Szentmihályi út" 47541348 19151940
    ∷ row "008904" "Kétújfalu utca" 47419483 19209137
    ∷ row "008910" "Káposztásmegyer, Mogyoródi-patak" 47598312 19121415
    ∷ row "008911" "Homoktövis iskola" 47597226 19117132
    ∷ row "008912" "Hidegkuti Nándor Stadion" 47490255 19110147
    ∷ row "008914" "Vágóhíd utca" 47473502 19079577
    ∷ row "008916" "Kőbányai garázs" 47490630 19114447
    ∷ row "008917" "Kőbányai garázs" 47490667 19113836
    ∷ row "008918" "Budatétény, benzinkút" 47430100 19003628
    ∷ row "008919" "Pongrátz Gergely tér" 47509905 19128276
    ∷ row "008921" "Dél-pesti autóbuszgarázs" 47426582 19161021
    ∷ row "008922" "Gyula vezér út" 47409242 19003434
    ∷ row "008923" "Kabai utca" 47495704 19160464
    ∷ row "008924" "Kabai utca" 47495533 19160424
    ∷ row "008939" "Békásmegyer H" 47598425 19054240
    ∷ row "008940" "Békásmegyer H" 47598667 19054107
    ∷ row "008941" "Váci út" 47561294 19079376
    ∷ row "008942" "Örs vezér tere M+H (Kerepesi út)" 47503207 19137531
    ∷ row "008943" "Budatétény, benzinkút" 47431018 19004423
    ∷ row "008944" "Újpest-városkapu M (Váci út)" 47556564 19076623
    ∷ row "008945" "Újpest-városkapu M (Váci út)" 47558092 19076836
    ∷ row "008946" "Szénás utca" 47527548 19181565
    ∷ row "008947" "Szlovák út" 47530956 19189170
    ∷ row "008948" "Kucorgó tér" 47469348 19295123
    ∷ row "008949" "Pestszentimre vasútáll. (Nagykőrösi út)" 47403412 19186620
    ∷ row "008950" "Pestszentimre vasútáll. (Nagykőrösi út)" 47404303 19185682
    ∷ row "008951" "Béke tér" 47430006 19215624
    ∷ row "008952" "Terv utca" 47408019 19001535
    ∷ row "008953" "Csillag utca" 47408474 19119154
    ∷ row "008954" "Csillag utca" 47409562 19118997
    ∷ row "008955" "Gombosszeg köz" 47413126 19118355
    ∷ row "008956" "Gombosszeg köz" 47413593 19118581
    ∷ row "008957" "Előd utca" 47418567 19117379
    ∷ row "008958" "Alsó határút" 47416543 19116568
    ∷ row "008959" "Templom utca 6." 47408837 19113563
    ∷ row "008960" "Gyáli-patak" 47394732 19116579
    ∷ row "008961" "Soroksár, Hősök tere H" 47399283 19116413
    ∷ row "008962" "Szent István utca H" 47392547 19115361
    ∷ row "008963" "Grassalkovich út" 47390521 19118865
    ∷ row "008964" "Szent László utca / Tartsay utca" 47421259 19127136
    ∷ row "008965" "Szent László utca / Tartsay utca" 47421196 19126871
    ∷ row "008967" "Szentlőrinci úti lakótelep" 47416876 19131290
    ∷ row "008971" "Gyula vezér út" 47409629 19004123
    ∷ row "009000" "Kistarcsa H" 47545503 19259839
    ∷ row "009001" "Kistarcsa H" 47545584 19259693
    ∷ row "009002" "Kerepes H" 47552441 19270507
    ∷ row "009003" "Kerepes H" 47551324 19268897
    ∷ row "009004" "Szilasligeti elágazás" 47560201 19283112
    ∷ row "009005" "Kerepes, Szabadság útja" 47560809 19282727
    ∷ row "009006" "Szilasligeti elágazás" 47560766 19283700
    ∷ row "009007" "Szilasliget, Posta" 47569550 19272176
    ∷ row "009008" "Szilasliget, Posta" 47569850 19272388
    ∷ row "009009" "Szilasliget, Wesselényi utca" 47573117 19269227
    ∷ row "009010" "Szilasliget, Wesselényi utca" 47572905 19269251
    ∷ row "009011" "Szilasliget, Szondi utca" 47575273 19266059
    ∷ row "009012" "Szilasliget, Szondi utca" 47575376 19265659
    ∷ row "009013" "Szilasliget, Kemping" 47578226 19261133
    ∷ row "009014" "EGIS-telep (Szentjakab H)" 47592911 19284773
    ∷ row "009015" "EGIS-telep (Szentjakab H)" 47592534 19285513
    ∷ row "009016" "Gödöllő, Szökőkút" 47599144 19346673
    ∷ row "009017" "Gödöllő, Szabadság tér H" 47599243 19346771
    ∷ row "009018" "Gödöllő, Szabadság tér H" 47598009 19349108
    ∷ row "009019" "Gödöllő, Palotakert H" 47598734 19355678
    ∷ row "009020" "Gödöllő, Palotakert H" 47598679 19356116
    ∷ row "009021" "Gödöllő H" 47593416 19357620
    ∷ row "009022" "Mogyoród H" 47595557 19271513
    ∷ row "009025" "Zichy Jenő utca" 47505192 19057853
    ∷ row "009026" "Zichy Jenő utca" 47505246 19057588
    ∷ row "009031" "Margit híd, budai hídfő H" 47514815 19035801
    ∷ row "009039" "Csanády utca (Lehel tér M)" 47515850 19058891
    ∷ row "009041" "Haller utca / Soroksári út" 47475740 19069389
    ∷ row "009042" "Haller utca / Soroksári út" 47475447 19069562
    ∷ row "009047" "Homoktövis utca / Megyeri út" 47594692 19113273
    ∷ row "009067" "Solymár, Auchan áruház" 47597798 18963376
    ∷ row "009074" "Használtcikk piac" 47435510 19145159
    ∷ row "009085" "Budaörs vasútállomás" 47448166 18964870
    ∷ row "009094" "Petőfi Sándor utca" 47402451 18937042
    ∷ row "009095" "Pacsirta utca" 47404562 18933977
    ∷ row "009096" "Pacsirta utca" 47404616 18933765
    ∷ row "009097" "Nóra utca" 47407239 18930884
    ∷ row "009098" "Nóra utca" 47407275 18930738
    ∷ row "009099" "Katinka utca" 47410428 18926876
    ∷ row "009100" "Katinka utca" 47410123 18927181
    ∷ row "009101" "Tátika utca" 47412860 18930262
    ∷ row "009102" "Tátika utca" 47412824 18929984
    ∷ row "009103" "Valéria utca" 47414113 18932830
    ∷ row "009104" "Valéria utca" 47414086 18932618
    ∷ row "009105" "Diósd, Búzavirág utca" 47416567 18934213
    ∷ row "009119" "Szentendre H" 47659618 19074522
    ∷ row "009137" "Újmajori utca" 47471697 19220067
    ∷ row "009138" "Csillagmotor köz" 47471020 19221815
    ∷ row "009139" "Dedics Ferenc utca" 47469097 19226094
    ∷ []
