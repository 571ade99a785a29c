-- ===== src/StopList/Part09.antt =====
-- Lines 1371 to 1520 of bkk_uds/bkk_stop_list.h.
use mathlib.Core.List.{List, [], ◌∷◌}
use bkk_api.StopList.Row.{BkkStop, row}

unfoldable pub stops_09 : List BkkStop
stops_09 =
    row "118746" "Páty, Somogyi Béla utca" 47512127 18839253
    ∷ row "118747" "Páty, Somogyi Béla utca" 47512159 18838936
    ∷ row "118748" "Páty, Telki elágazás" 47515613 18830954
    ∷ row "118749" "Páty, Telki elágazás" 47515450 18830837
    ∷ row "118750" "Páty, Iskola utca" 47514055 18826435
    ∷ row "118751" "Páty, Iskola utca" 47513847 18826170
    ∷ row "118752" "Páty, Töki utca" 47512202 18817374
    ∷ row "118753" "Páty, Töki utca" 47511661 18816605
    ∷ row "118755" "Páty, Újtelep" 47512260 18810604
    ∷ row "118757" "Tök, Újmajor" 47530946 18784344
    ∷ row "118759" "Zsámbék, PEMÜ" 47544484 18730781
    ∷ row "118760" "Zsámbék, Ady Endre utca" 47544056 18726059
    ∷ row "118761" "Zsámbék, Ady Endre utca" 47544093 18726434
    ∷ row "118762" "Zsámbék, autóbusz-forduló" 47544648 18719305
    ∷ row "118763" "Páty, Arany János utca" 47520030 18833280
    ∷ row "118765" "Páty, Erdészház" 47525564 18835935
    ∷ row "118767" "Pátyi elágazás" 47537517 18843695
    ∷ row "118769" "Telki, Hóvirág utca" 47542592 18834193
    ∷ row "118771" "Telki, Ófalu" 47546663 18829099
    ∷ row "118773" "Telki, Rákóczi Ferenc utca" 47548879 18824546
    ∷ row "118775" "Telki, Muskátli utca" 47551033 18819085
    ∷ row "118777" "Telki, Újfalu" 47552285 18813638
    ∷ row "118779" "Budajenő, Posta" 47555968 18803238
    ∷ row "118781" "Budajenő, Petőfi Sándor utca" 47558361 18800246
    ∷ row "118783" "Perbál, Újmajor" 47580639 18772306
    ∷ row "118785" "Perbál, Szervizüzem" 47586925 18763353
    ∷ row "118787" "Perbál, Központ" 47590859 18758826
    ∷ row "118789" "Perbál, Kisperbál" 47587635 18752972
    ∷ row "118792" "Zsámbék, Új iskola" 47554778 18725852
    ∷ row "118794" "Zsámbék, Vasbolt" 47550268 18721214
    ∷ row "118801" "Zsámbék, Magyar utca 59." 47545892 18724514
    ∷ row "118803" "Tök, Körtvélyes" 47579537 18744186
    ∷ row "118805" "Tök, Központi Major" 47575760 18740075
    ∷ row "118807" "Tök, Temető" 47570975 18734058
    ∷ row "118809" "Tök, Kútvölgy" 47566821 18731572
    ∷ row "118811" "Tök, Fő utca 100." 47560806 18729505
    ∷ row "120179" "Sport utca" 47456428 18948227
    ∷ row "120666" "Fehér Holló utca" 47475344 19085999
    ∷ row "121033" "Ürömi mészégető" 47590500 19010152
    ∷ row "121935" "Kálvin tér M" 47488752 19061022
    ∷ row "121946" "Petőfi híd, budai hídfő" 47479019 19059321
    ∷ row "123405" "Göncz Árpád városkp. M (Esztergomi út)" 47535016 19064326
    ∷ row "123833" "Bécsi út CNG kút" 47560209 19023994
    ∷ row "123834" "Budafoki út CNG kút" 47462026 19054121
    ∷ row "124358" "Üröm, Csókavár utca" 47594951 19012720
    ∷ row "125392" "Üröm, Templom tér" 47598987 19012565
    ∷ row "139866" "Harsona utca" 47490264 19271176
    ∷ row "139867" "Bártfai utca / Diadal utca" 47493155 19268706
    ∷ row "139868" "Jászapáti utca" 47494849 19267147
    ∷ row "139869" "Bártfai utca / Ananász utca" 47497076 19264595
    ∷ row "139870" "Ezüst utca" 47498392 19262835
    ∷ row "139871" "Kálnok utca" 47500376 19260069
    ∷ row "139872" "Részes utca" 47499913 19257387
    ∷ row "139873" "Piski utca (óvoda)" 47499170 19255260
    ∷ row "139874" "Kálnok utca" 47500214 19260148
    ∷ row "139875" "Ezüst utca" 47498636 19262345
    ∷ row "139876" "Bártfai utca / Ananász utca" 47497031 19264502
    ∷ row "139877" "Jászapáti utca" 47494460 19267374
    ∷ row "139878" "Bártfai utca / Diadal utca" 47492831 19268851
    ∷ row "139996" "Peregi út" 47478005 19297167
    ∷ row "139997" "Nemesbük utca" 47479341 19299190
    ∷ row "139998" "Földeák utca" 47477418 19302656
    ∷ row "140234" "Rácsos utca (iskola)" 47495402 19274210
    ∷ row "141891" "Sport tér" 47477158 19295883
    ∷ row "142155" "Pilisborosjenő, orvosi rendelő" 47607289 18991266
    ∷ row "142232" "Pannon út" 47438935 18932657
    ∷ row "142233" "Pannon út" 47438841 18933013
    ∷ row "166505" "Bosnyák tér (bevásárlóközpont)" 47521821 19115139
    ∷ row "166506" "Bosnyák tér (bevásárlóközpont)" 47521956 19115484
    ∷ row "166508" "Pilisborosjenő, Újtelep" 47604560 18994178
    ∷ row "167955" "Pilisborosjenő, iskola" 47602071 19002733
    ∷ row "169103" "Üröm, Kert utca" 47599974 19007957
    ∷ row "169104" "Üröm, Templom tér" 47598920 19012555
    ∷ row "175046" "Üröm, Csókavár utca" 47595345 19012733
    ∷ row "175049" "Ürömi mészégető" 47589914 19009979
    ∷ row "175050" "Pilisborosjenői elágazás" 47586649 19006248
    ∷ row "182813" "Árpádföld, Bekecs utca" 47533451 19207673
    ∷ row "19720" "Közvágóhíd" 47466285 19077170
    ∷ row "19720236" "Közvágóhíd" 47466285 19077170
    ∷ row "19720237" "Közvágóhíd" 47466285 19077170
    ∷ row "19726" "Kén utca" 47454906 19086556
    ∷ row "19726238" "Kén utca" 47454906 19086556
    ∷ row "19726239" "Kén utca" 47454906 19086556
    ∷ row "19729" "Pesterzsébet felső" 47438416 19093425
    ∷ row "19729240" "Pesterzsébet felső" 47438416 19093425
    ∷ row "19729241" "Pesterzsébet felső" 47438416 19093425
    ∷ row "19730243" "Torontál utca" 47423380 19105036
    ∷ row "19730244" "Torontál utca" 47423002 19105380
    ∷ row "19731245" "Soroksár felső" 47409938 19111832
    ∷ row "19731246" "Soroksár felső" 47409380 19112017
    ∷ row "19733247" "Soroksár, Hősök tere" 47399538 19114655
    ∷ row "19733248" "Soroksár, Hősök tere" 47399080 19114906
    ∷ row "19734249" "Szent István utca" 47391812 19114963
    ∷ row "19734250" "Szent István utca" 47391533 19114857
    ∷ row "19735251" "Millenniumtelep" 47379898 19104976
    ∷ row "19735252" "Millenniumtelep" 47379584 19104817
    ∷ row "19736" "Dunaharaszti felső" 47366371 19092656
    ∷ row "19736253" "Dunaharaszti felső" 47366371 19092656
    ∷ row "19736254" "Dunaharaszti felső" 47366371 19092656
    ∷ row "19737" "Szigetszentmiklós" 47344207 19050242
    ∷ row "19737257" "Szigetszentmiklós" 47344207 19050242
    ∷ row "19737258" "Szigetszentmiklós" 47344207 19050242
    ∷ row "19739" "Dunaharaszti külső" 47359892 19086130
    ∷ row "19739255" "Dunaharaszti külső" 47359892 19086130
    ∷ row "19739256" "Dunaharaszti külső" 47359892 19086130
    ∷ row "19739643" "Dunaharaszti külső" 47359892 19086130
    ∷ row "19742" "József Attila-telep" 47337095 19034336
    ∷ row "19742259" "József Attila-telep" 47337095 19034336
    ∷ row "19742260" "József Attila-telep" 47337095 19034336
    ∷ row "19743" "Szigetszentmiklós alsó" 47336444 19019615
    ∷ row "19743261" "Szigetszentmiklós alsó" 47336444 19019615
    ∷ row "19743262" "Szigetszentmiklós alsó" 47336444 19019615
    ∷ row "19745" "Szigetszentmiklós-Gyártelep" 47333635 19003776
    ∷ row "19745263" "Szigetszentmiklós-Gyártelep" 47333635 19003776
    ∷ row "19745264" "Szigetszentmiklós-Gyártelep" 47333635 19003776
    ∷ row "19750" "Szigethalom" 47330041 18993868
    ∷ row "19750265" "Szigethalom" 47330041 18993868
    ∷ row "19750266" "Szigethalom" 47330041 18993868
    ∷ row "19751" "Szigethalom alsó" 47321368 18983529
    ∷ row "19751267" "Szigethalom alsó" 47321368 18983529
    ∷ row "19751268" "Szigethalom alsó" 47321368 18983529
    ∷ row "19752" "Tököl" 47313477 18974254
    ∷ row "19752269" "Tököl" 47313477 18974254
    ∷ row "19752270" "Tököl" 47313477 18974254
    ∷ row "19760" "Szigetcsép" 47270231 18956263
    ∷ row "19760271" "Szigetcsép" 47270231 18956263
    ∷ row "19760272" "Szigetcsép" 47270231 18956263
    ∷ row "19760672" "Szigetcsép" 47270231 18956263
    ∷ row "19778" "Szigetszentmárton-Szigetújfalu" 47227924 18946067
    ∷ row "19778273" "Szigetszentmárton-Szigetújfalu" 47227924 18946067
    ∷ row "19784" "Horgásztanyák" 47213582 18952953
    ∷ row "19784274" "Horgásztanyák" 47213582 18952953
    ∷ row "19785" "Angyalisziget" 47199808 18945066
    ∷ row "19785275" "Angyalisziget" 47199808 18945066
    ∷ row "19786" "Ráckeve" 47175605 18941796
    ∷ row "19786276" "Ráckeve" 47175605 18941796
    ∷ row "19786277" "Ráckeve" 47175605 18941796
    ∷ row "19795" "Örs vezér tere" 47503585 19137192
    ∷ row "19795278" "Örs vezér tere" 47503585 19137192
    ∷ row "19795279" "Örs vezér tere" 47503585 19137192
    ∷ row "19795280" "Örs vezér tere" 47503585 19137192
    ∷ row "19798" "Rákosfalva" 47505067 19151378
    ∷ row "19798281" "Rákosfalva" 47505067 19151378
    ∷ row "19798282" "Rákosfalva" 47505067 19151378
    ∷ row "19810" "Nagyicce" 47507017 19167690
    ∷ row "19810283" "Nagyicce" 47507017 19167690
    ∷ row "19810284" "Nagyicce" 47507017 19167690
    ∷ row "19823" "Sashalom" 47508952 19178647
    ∷ row "19823285" "Sashalom" 47508952 19178647
    ∷ row "19823286" "Sashalom" 47508952 19178647
    ∷ []
