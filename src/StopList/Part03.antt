-- ===== src/StopList/Part03.antt =====
-- Lines 471 to 620 of bkk_uds/bkk_stop_list.h.
use mathlib.Core.List.{List, [], ◌∷◌}
use bkk_api.StopList.Row.{BkkStop, row}

unfoldable pub stops_03 : List BkkStop
stops_03 =
    row "009140" "Ősrepülő utca" 47469563 19227170
    ∷ row "009145" "Haller utca / Mester utca" 47475922 19077827
    ∷ row "009146" "Vágóhíd utca" 47473628 19079643
    ∷ row "009147" "Vörösmarty utca" 47419869 19120349
    ∷ row "009148" "Szusza Ferenc Stadion" 47575692 19083757
    ∷ row "009153" "Óbudai rendelőintézet" 47545359 19033751
    ∷ row "009154" "Atlétikai stadion" 47572606 19114432
    ∷ row "009155" "Atlétikai stadion" 47572210 19114152
    ∷ row "009160" "Keleti pályaudvar M" 47499449 19083401
    ∷ row "009161" "Keleti pályaudvar M" 47499431 19084012
    ∷ row "009162" "Keleti pályaudvar M" 47499926 19083216
    ∷ row "009163" "Keleti pályaudvar M" 47499926 19083587
    ∷ row "009166" "Magdolna utca" 47492763 19087670
    ∷ row "009170" "Pomáz, Dózsa György utca" 47645570 19027226
    ∷ row "009171" "Pomáz, Dózsa György utca" 47645554 19027001
    ∷ row "009172" "Piski utca / Bártfai utca" 47501188 19258520
    ∷ row "009174" "Széll Kálmán tér M" 47507673 19024894
    ∷ row "009179" "Petőfi híd, budai hídfő" 47476798 19058923
    ∷ row "009192" "Kacsóh Pongrác utca" 47396484 19208706
    ∷ row "009193" "Kacsóh Pongrác utca" 47396871 19208747
    ∷ row "009194" "Széchenyi utca / Ady Endre utca" 47389950 19217945
    ∷ row "009195" "Széchenyi utca / Ady Endre utca" 47390177 19217708
    ∷ row "009196" "Széchenyi utca / Vecsési út" 47381844 19230726
    ∷ row "009197" "Bocskai István utca / Széchenyi utca" 47383395 19228294
    ∷ row "009198" "Somogyi Béla utca / Széchenyi utca" 47386830 19222955
    ∷ row "009199" "Mátyás király utca" 47394728 19210542
    ∷ row "009200" "Mátyás király utca" 47394881 19210397
    ∷ row "009201" "Tulipán utca" 47392591 19213834
    ∷ row "009202" "Tulipán utca" 47392194 19214614
    ∷ row "009203" "Gyál, Deák Ferenc utca" 47385265 19235533
    ∷ row "009204" "Árpád utca" 47388079 19231106
    ∷ row "009205" "Dobó Katica utca / Deák Ferenc utca" 47389747 19228502
    ∷ row "009206" "Táncsics Mihály utca" 47392116 19224853
    ∷ row "009207" "Kossuth Lajos utca" 47391717 19221196
    ∷ row "009208" "Pestszentlőrinc, Szarvas csárda tér" 47441307 19185114
    ∷ row "009220" "Móricz Zsigmond körtér M" 47477496 19048347
    ∷ row "009225" "Noszlopy utca" 47471898 19148435
    ∷ row "009230" "Deák Ferenc tér M" 47497638 19053021
    ∷ row "009234" "Pestszentimre vasútállomás (Nemes utca)" 47404518 19187166
    ∷ row "009238" "Szent Korona utca" 47525735 19169802
    ∷ row "009239" "Csömöri út" 47528031 19167497
    ∷ row "009240" "Sasvár utca" 47518294 19180653
    ∷ row "009241" "Margit utca" 47515113 19185325
    ∷ row "009243" "Alsó határút" 47416184 19116209
    ∷ row "009289" "Gergely utca" 47468754 19154451
    ∷ row "009290" "Közvágóhíd H" 47466497 19075739
    ∷ row "009292" "Szigetszentmiklós, városháza" 47348602 19044724
    ∷ row "009295" "Serfőző utca" 47539095 19045373
    ∷ row "009300" "Népliget M" 47474611 19097765
    ∷ row "009301" "Gárdonyi Géza utca" 47405402 18947780
    ∷ row "009309" "Deák Ferenc tér M" 47497449 19055715
    ∷ row "009311" "BILK, bekötőút" 47378957 19129179
    ∷ row "009312" "MNB" 47376882 19124303
    ∷ row "009314" "BILK, DF épület" 47375229 19120911
    ∷ row "009315" "MNB" 47376675 19124382
    ∷ row "009321" "Keleti pályaudvar M" 47499926 19084198
    ∷ row "009322" "Örs vezér tere M+H (Kerepesi út)" 47503260 19137956
    ∷ row "009337" "Orbánhegyi dűlő" 47386335 19110172
    ∷ row "009338" "Orbánhegyi dűlő" 47386389 19110490
    ∷ row "009339" "Szent István utca H" 47391055 19114151
    ∷ row "009349" "Budaörsi repülőtér" 47447065 18986709
    ∷ row "009351" "Kőérberek" 47446333 18998537
    ∷ row "009352" "Kőérberek" 47446180 18998775
    ∷ row "009353" "Tippan utca" 47447962 19000789
    ∷ row "009354" "Tippan utca" 47447746 19000378
    ∷ row "009355" "Régi vám (Kánai út)" 47446389 19003986
    ∷ row "009356" "Régi vám (Kánai út)" 47446200 19004052
    ∷ row "009358" "Millenniumtelep H" 47379529 19104152
    ∷ row "009359" "Boráros tér H" 47479797 19066408
    ∷ row "009365" "Zsil utca" 47482716 19062997
    ∷ row "009369" "Csepel, Horgásztanya" 47388344 19103486
    ∷ row "009373" "Hunyadvár utca / Jókai Mór utca" 47508153 19192136
    ∷ row "009375" "Szilas-patak" 47529297 19185461
    ∷ row "009376" "Újpalota, Nyírpalota út" 47547013 19142015
    ∷ row "009377" "Jókai Mór utca (Rendőrség)" 47510358 19190456
    ∷ row "009379" "József utca" 47532080 19155893
    ∷ row "009381" "Rózsa utca" 47515819 19155767
    ∷ row "009382" "Jávorfa utca" 47525996 19177844
    ∷ row "009383" "János utca" 47523555 19172340
    ∷ row "009412" "Karolina út" 47473505 19034394
    ∷ row "009413" "Ezredes utca" 47510038 19021760
    ∷ row "009415" "Sárfű utca" 47550084 19138128
    ∷ row "009420" "Honvédkórház" 47531561 19070886
    ∷ row "009421" "Ezred utca" 47605951 19097621
    ∷ row "009422" "Ezred utca" 47606849 19098223
    ∷ row "009425" "Csonka János tér" 47470543 19045296
    ∷ row "009426" "Zugló vasútállomás" 47511873 19099618
    ∷ row "009427" "Kelenföldi autóbuszgarázs" 47473226 19029552
    ∷ row "009429" "Keserűvíztelep (Bobpálya)" 47454755 19007519
    ∷ row "009430" "Keserűvíztelep (Bobpálya)" 47453847 19007547
    ∷ row "009431" "Régi vám" 47446768 19006041
    ∷ row "009438" "Budakeszi, Honfoglalás sétány" 47517751 18923769
    ∷ row "009439" "Zichy Péter utca" 47515575 18922359
    ∷ row "009440" "Zichy Péter utca" 47516133 18922570
    ∷ row "009442" "Széchenyi utca (gimnázium)" 47512067 18928677
    ∷ row "009443" "Széchenyi utca (gimnázium)" 47512028 18927518
    ∷ row "009445" "Tatárka utca" 47433982 19021176
    ∷ row "009446" "Botond utca" 47404076 18996178
    ∷ row "009447" "Mátyás király utca" 47404443 18991581
    ∷ row "009448" "Görgey utca" 47406773 18991631
    ∷ row "009449" "Török utca" 47411737 18989837
    ∷ row "009451" "Gyűszű utca" 47417266 19022400
    ∷ row "009452" "Húr utca" 47416159 19020426
    ∷ row "009453" "Dévény utca" 47415224 19022189
    ∷ row "009454" "Wesselényi utca" 47415917 19026059
    ∷ row "009455" "Ostor utca" 47416544 19029864
    ∷ row "009456" "Római utca" 47417930 19017589
    ∷ row "009457" "Római utca" 47417175 19018319
    ∷ row "009458" "Hűség utca" 47421208 19013469
    ∷ row "009459" "Hűség utca" 47420529 19014023
    ∷ row "009460" "Komáromi út" 47424593 19010866
    ∷ row "009461" "Komáromi út" 47424032 19011122
    ∷ row "009462" "Tanító utca" 47435283 19008714
    ∷ row "009463" "Tanító utca" 47435274 19009762
    ∷ row "009465" "Plébánia utca" 47429730 19032298
    ∷ row "009466" "Plébánia utca" 47429631 19032245
    ∷ row "009467" "Galamb utca" 47432734 19028520
    ∷ row "009468" "Galamb utca" 47432671 19028467
    ∷ row "009469" "Alkotmány utca" 47433444 19025921
    ∷ row "009470" "Alkotmány utca" 47433354 19025948
    ∷ row "009471" "Széchenyi utca" 47418185 19032578
    ∷ row "009472" "Promontor utca" 47418055 19027015
    ∷ row "009473" "Széchenyi utca" 47418464 19032657
    ∷ row "009474" "Komló utca" 47421339 19035137
    ∷ row "009475" "Méhész utca" 47438572 19034695
    ∷ row "009478" "Szent Lőrinc-telep" 47432106 19172930
    ∷ row "009479" "Szent Lőrinc-telep" 47432106 19173155
    ∷ row "009480" "Margó Tivadar utca" 47433274 19177803
    ∷ row "009481" "Kerékgyártó utca" 47521341 19105562
    ∷ row "009482" "Kucorgó tér" 47469059 19295984
    ∷ row "009483" "Rákoscsaba vasútállomás" 47491097 19281623
    ∷ row "009484" "Tura utca" 47489200 19276864
    ∷ row "009485" "Rákoscsaba-Újtelep vasútállomás" 47488137 19273290
    ∷ row "009486" "II. utca" 47486290 19265546
    ∷ row "009487" "Rákosliget vasútállomás" 47486311 19259071
    ∷ row "009491" "Füstifecske utca" 47478911 19236966
    ∷ row "009492" "Füstifecske utca" 47478776 19237124
    ∷ row "009493" "Uszoda" 47479619 19232975
    ∷ row "009494" "Újlak utca, lakótelep" 47482307 19233674
    ∷ row "009495" "Rákospatak utca" 47531435 19100660
    ∷ row "009498" "Csertő utca" 47511043 19146053
    ∷ row "009499" "Csertő utca" 47511465 19147169
    ∷ row "009500" "Körvasút sor" 47513665 19151090
    ∷ row "009501" "Körvasút sor" 47514590 19152804
    ∷ row "009503" "Kovácsi Kálmán tér" 47573138 19121088
    ∷ row "009504" "Kovácsi Kálmán tér" 47573309 19121115
    ∷ row "009508" "Orló utca" 47518280 19007492
    ∷ row "009509" "Orló utca" 47518145 19007399
    ∷ row "009510" "Gábor Áron utca / Pasaréti út" 47516184 19004033
    ∷ row "009511" "Gábor Áron utca / Pasaréti út" 47516355 19003967
    ∷ []
