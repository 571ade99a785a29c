-- ===== src/StopList/Part07.antt =====
-- Lines 1071 to 1220 of bkk_uds/bkk_stop_list.h.
use mathlib.Core.List.{List, [], ◌∷◌}
use bkk_api.StopList.Row.{BkkStop, row}

unfoldable pub stops_07 : List BkkStop
stops_07 =
    row "066716" "Öntöző utca" 47478746 19278252
    ∷ row "066717" "Öntöző utca" 47478899 19278173
    ∷ row "066718" "Pestvidék utca" 47476592 19280644
    ∷ row "066719" "Pestvidék utca" 47476781 19280538
    ∷ row "066720" "Derkovits tér" 47474869 19283024
    ∷ row "066722" "Nyeremény utca" 47474462 19284123
    ∷ row "066828" "Göncz Árpád városközpont M" 47532812 19065866
    ∷ row "066856" "Pagony utca" 47495126 19002838
    ∷ row "066969" "Zimonyi utca" 47471748 19299950
    ∷ row "067002" "Kelenföldi VB pályaudvar" 47463329 19022895
    ∷ row "067335" "Pesti út MOL kút" 47484366 19227629
    ∷ row "067511" "Orgonás (Sárospatak út)" 47506109 19004435
    ∷ row "067516" "Orgonás (Sárospatak út)" 47506253 19004156
    ∷ row "067622" "Csepel, Csillagtelep" 47409970 19060354
    ∷ row "068751" "Páty, autóbusz-forduló" 47511928 18811387
    ∷ row "069089" "Margit híd, budai hídfő H" 47515149 19037569
    ∷ row "069090" "Margit híd, budai hídfő H" 47515122 19037158
    ∷ row "069091" "Margit híd, budai hídfő H" 47514717 19035936
    ∷ row "069092" "Bem József tér" 47512082 19039455
    ∷ row "069093" "Bem József tér" 47511776 19039296
    ∷ row "069170" "Őrjárat utca" 47541288 19124485
    ∷ row "069174" "Czuczor utca" 47484380 19060928
    ∷ row "069189" "Nagytétény-Diósd vasútállomás" 47397992 18973294
    ∷ row "069190" "Nagytétény-Diósd vasútállomás" 47397866 18973003
    ∷ row "069195" "Leshegy Ipari Park" 47375099 19043252
    ∷ row "069272" "Kvasz András utca" 47472365 19230190
    ∷ row "069273" "Kvasz András utca" 47472536 19230151
    ∷ row "069289" "Boráros tér H" 47479468 19067454
    ∷ row "069403" "Jahn Ferenc Kórház" 47423225 19132016
    ∷ row "069664" "Káposztásmegyer, Mogyoródi-patak" 47598572 19120742
    ∷ row "070127" "Szilaspatak sor" 47588638 19097738
    ∷ row "070128" "Szilaspatak sor" 47588027 19096700
    ∷ row "070997" "Széll Kálmán tér M" 47507797 19023271
    ∷ row "071236" "Szent Gellért tér - Műegyetem M" 47482689 19054984
    ∷ row "071262" "BudaPart" 47468550 19057940
    ∷ row "071659" "Nyugati pályaudvar M" 47509906 19055040
    ∷ row "072046" "Muflon utca" 47570835 18931411
    ∷ row "072047" "Muflon utca" 47570673 18931477
    ∷ row "072606" "Szűcs utca" 47525127 19210649
    ∷ row "072669" "Takács utca" 47526352 19209112
    ∷ row "072851" "Maros utcai rendelőintézet" 47503868 19022427
    ∷ row "072934" "Rudas Gyógyfürdő" 47490110 19047195
    ∷ row "072935" "Rudas Gyógyfürdő" 47489824 19047383
    ∷ row "072938" "CS/ Kossuth Lajos utca MOL" 47438084 19071291
    ∷ row "073108" "Budafoki út / Dombóvári út" 47468757 19053324
    ∷ row "073152" "Maros utca" 47505504 19021603
    ∷ row "073308" "Solymár vasútállomás" 47596035 18949797
    ∷ row "073426" "Művelődési Ház" 47428626 18913182
    ∷ row "073427" "Művelődési Ház" 47428518 18912970
    ∷ row "073471" "Nyár utca" 47435378 18918467
    ∷ row "073472" "Harangláb" 47432072 18914048
    ∷ row "073473" "Munkácsy Mihály utca (hősi emlékmű)" 47430977 18916119
    ∷ row "073513" "Óceán-árok utca" 47589504 19101543
    ∷ row "074021" "Kőbányai garázs" 47491018 19114222
    ∷ row "074495" "Törökbálint Sportközpont" 47440533 18897203
    ∷ row "074909" "Auchan Liget" 47541449 19246632
    ∷ row "074935" "Nagy Lajos király útja / Czobor utca" 47522827 19102034
    ∷ row "074959" "Deák Ferenc tér M" 47498429 19054972
    ∷ row "075119" "Nyár utca" 47435414 18918706
    ∷ row "075152" "Vágás utca (óvoda)" 47527861 19203951
    ∷ row "075220" "Óbudai autóbuszgarázs" 47567996 19027538
    ∷ row "075474" "Malomdomb (áruház)" 47526707 19206404
    ∷ row "075654" "Köves út / Szentlőrinci út" 47416057 19143215
    ∷ row "075655" "Köves út / Szentlőrinci út" 47416264 19143255
    ∷ row "075684" "Bóbitás út / Szakács utca" 47527415 19207814
    ∷ row "075744" "Sasadi út" 47465452 19015814
    ∷ row "075838" "Gimnázium" 47581677 19105776
    ∷ row "075839" "Gimnázium" 47581335 19105842
    ∷ row "076394" "Aranyvölgy vasútállomás" 47574371 19016425
    ∷ row "076395" "Aranyvölgy vasútállomás" 47573795 19017688
    ∷ row "076396" "Óbuda vasútállomás (Aranyhegyi út)" 47570533 19028308
    ∷ row "076397" "Óbuda vasútállomás (Aranyhegyi út)" 47570821 19027643
    ∷ row "076398" "Aranyvölgy utca 14." 47571818 19022819
    ∷ row "076399" "Aranyvölgy utca 14." 47572132 19021888
    ∷ row "077870" "Káposztásmegyer, Szilas-patak" 47578416 19114426
    ∷ row "077969" "Andor utcai autóbuszgarázs (kapu)" 47457701 19027184
    ∷ row "078004" "Széll Kálmán tér M" 47507124 19023155
    ∷ row "078064" "Nyéki Imre Uszoda" 47451047 19037609
    ∷ row "081565" "Széll Kálmán tér M" 47507709 19024363
    ∷ row "081950" "Városház tér" 47426313 19040040
    ∷ row "081954" "Kacsa utca" 47510526 19039256
    ∷ row "082200" "Bécsi út / Vörösvári út" 47546762 19029194
    ∷ row "082356" "Békásmegyer H" 47597853 19054094
    ∷ row "082357" "Közvágóhíd H" 47467693 19076536
    ∷ row "082617" "Sasadi út" 47466648 19016251
    ∷ row "082622" "Tábor utca" 47498114 19034494
    ∷ row "082623" "Rózsakert utca / Minta utca" 47403236 19009361
    ∷ row "083079" "Bogáncs utcai autóbuszgarázs (kapu)" 47570330 19134978
    ∷ row "083329" "Bartók Béla út 208." 47417571 18985325
    ∷ row "083330" "Bartók Béla út 208." 47416996 18985724
    ∷ row "083331" "Savoyai Jenő tér (Plébánia utca)" 47428795 19035480
    ∷ row "083601" "Rudas Gyógyfürdő" 47490065 19047301
    ∷ row "083777" "Budafoki Szomszédok Piaca" 47427563 19039417
    ∷ row "084095" "Kovács utca" 47528722 19206423
    ∷ row "084181" "Menyhért utca / Budapesti út" 47529964 19205564
    ∷ row "084831" "Biztató út / Szakács utca" 47528653 19210072
    ∷ row "084946" "Biztató út / Budapesti út" 47530481 19208484
    ∷ row "085723" "Lehel tér M (Lehel utca)" 47517100 19062144
    ∷ row "086856" "Nagyvárad tér M" 47477735 19091400
    ∷ row "086857" "Albert Flórián út" 47473538 19095032
    ∷ row "086874" "Vörösmarty Mihály utca" 47439540 19164256
    ∷ row "086875" "Kondor Béla sétány" 47438745 19167224
    ∷ row "086876" "Fiatalság utca" 47437131 19171052
    ∷ row "087373" "Soroksár, IKEA áruház" 47412758 19160912
    ∷ row "088017" "Napfény utca, MOL töltőállomás" 47458175 19114884
    ∷ row "088018" "Gyáli út, MOL Töltőállomás" 47459785 19109854
    ∷ row "088212" "Széna tér, tároló" 47508805 19027359
    ∷ row "088453" "Ráckeve kocsiszín (kapu)" 47174786 18941798
    ∷ row "088670" "Repülőmúzeum" 47426502 19262121
    ∷ row "088969" "Kőbánya-Kispest M" 47462778 19148431
    ∷ row "089411" "Liszt Ferenc Airport 2" 47432677 19261111
    ∷ row "089515" "Kálvin tér M" 47490613 19061858
    ∷ row "089517" "Astoria M" 47494145 19060146
    ∷ row "089725" "Nád utca" 47593784 19047312
    ∷ row "09001" "Batthyány tér" 47506776 19039318
    ∷ row "09001187" "Batthyány tér" 47506776 19039318
    ∷ row "09001188" "Batthyány tér" 47506776 19039318
    ∷ row "09001189" "Batthyány tér" 47506776 19039318
    ∷ row "09019" "Margit híd, budai hídfő" 47515376 19039380
    ∷ row "09019190" "Margit híd, budai hídfő" 47515376 19039380
    ∷ row "09019191" "Margit híd, budai hídfő" 47515376 19039380
    ∷ row "090311" "Szállító utcai autóbuszgarázs (kapu)" 47442018 19082996
    ∷ row "090370" "Lehel tér M" 47518917 19060989
    ∷ row "09043" "Szépvölgyi út" 47527303 19040168
    ∷ row "09043192" "Szépvölgyi út" 47527303 19040168
    ∷ row "09043193" "Szépvölgyi út" 47527303 19040168
    ∷ row "090482" "Ötvenhatosok tere" 47507822 19087004
    ∷ row "09050" "Tímár utca" 47533964 19044643
    ∷ row "09050194" "Tímár utca" 47533964 19044643
    ∷ row "09050195" "Tímár utca" 47533964 19044643
    ∷ row "09068" "Szentlélek tér" 47539636 19047161
    ∷ row "09068196" "Szentlélek tér" 47539636 19047161
    ∷ row "09068197" "Szentlélek tér" 47539636 19047161
    ∷ row "090784" "Solymár, PEVDI" 47596764 18952940
    ∷ row "09084200" "Kaszásdűlő" 47556508 19045133
    ∷ row "09084201" "Kaszásdűlő" 47557039 19045372
    ∷ row "090915" "Andor utca / Tétényi út" 47457127 19033537
    ∷ row "090963" "Cinkota H" 47520573 19218894
    ∷ row "090995" "Kerecsen utca / Hétvezér utca" 47529640 19212230
    ∷ row "09100" "Aquincum" 47567255 19048728
    ∷ row "09100202" "Aquincum" 47567255 19048728
    ∷ row "09100203" "Aquincum" 47567255 19048728
    ∷ row "091120" "Szikratávíró utca" 47447322 19068742
    ∷ row "09118" "Filatorigát" 47551903 19046243
    ∷ row "09118198" "Filatorigát" 47551903 19046243
    ∷ row "09118199" "Filatorigát" 47551903 19046243
    ∷ row "091217" "Szentlőrinci úti lakótelep" 47416416 19132111
    ∷ row "09126" "Budakalász" 47616165 19054920
    ∷ row "09126210" "Budakalász" 47616165 19054920
    ∷ row "09126211" "Budakalász" 47616165 19054920
    ∷ []
