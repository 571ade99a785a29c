-- ===== src/StopList/Part06.antt =====
-- Lines 921 to 1070 of bkk_uds/bkk_stop_list.h.
use mathlib.Core.List.{List, [], ◌∷◌}
use bkk_api.StopList.Row.{BkkStop, row}

unfoldable pub stops_06 : List BkkStop
stops_06 =
    row "056223" "Szent Gellért tér - Műegyetem" 47482635 19054014
    ∷ row "056224" "Szent Gellért tér - Műegyetem" 47483039 19055036
    ∷ row "056225" "Fővám tér" 47485792 19057571
    ∷ row "056226" "Fővám tér" 47486169 19058009
    ∷ row "056227" "Kálvin tér" 47488903 19061022
    ∷ row "056228" "Kálvin tér" 47489245 19061938
    ∷ row "056229" "Rákóczi tér" 47492725 19071361
    ∷ row "056230" "Rákóczi tér" 47492760 19072489
    ∷ row "056231" "II. János Pál pápa tér" 47495593 19077229
    ∷ row "056232" "II. János Pál pápa tér" 47496078 19077707
    ∷ row "056233" "Keleti pályaudvar" 47500116 19080722
    ∷ row "056234" "Keleti pályaudvar" 47500485 19081704
    ∷ row "056379" "Metró DBR járműtelep (kapu)" 47461404 19025005
    ∷ row "056427" "Deák Ferenc tér M" 47497853 19054189
    ∷ row "061136" "Rákosszeg park" 47534267 19103451
    ∷ row "061188" "Kelenföld vasútállomás M" 47464005 19018706
    ∷ row "061222" "Kelenföld vasútállomás M" 47464364 19018786
    ∷ row "061223" "Neszmélyi út" 47460812 19013887
    ∷ row "061224" "Zelk Zoltán út / Neszmélyi út" 47458590 19018802
    ∷ row "061225" "Hajtány sor" 47455362 19024440
    ∷ row "061226" "Zelk Zoltán út (Menyecske utca)" 47461423 19018933
    ∷ row "061227" "Zelk Zoltán út (Menyecske utca)" 47461046 19018907
    ∷ row "061231" "Pajkos utca" 47456821 19030513
    ∷ row "061232" "Pajkos utca" 47457108 19029134
    ∷ row "061233" "Antalháza" 47436488 19007202
    ∷ row "061234" "Antalháza" 47436388 19006937
    ∷ row "061236" "Bíbic utca" 47412085 19005088
    ∷ row "061237" "Bíbic utca" 47411959 19005128
    ∷ row "061238" "Nyéki Imre Uszoda" 47450921 19036880
    ∷ row "061271" "Igmándi utca" 47456585 19019772
    ∷ row "061272" "Bolygó utca" 47451250 19016300
    ∷ row "061273" "Bolygó utca" 47450764 19016208
    ∷ row "061274" "Kelenföld vasútállomás M" 47464094 19018481
    ∷ row "061275" "Kelenföld vasútállomás M" 47464337 19018507
    ∷ row "061277" "Kelenföld vasútállomás M" 47464634 19018494
    ∷ row "061278" "Kelenföld vasútállomás M" 47464751 19017791
    ∷ row "061280" "Kelenföld vasútállomás M" 47464436 19018308
    ∷ row "061286" "Szabina út" 47437398 19013737
    ∷ row "061349" "Keleti pályaudvar M" 47499654 19083773
    ∷ row "061350" "Keleti pályaudvar M" 47499809 19083229
    ∷ row "061351" "Keleti pályaudvar M" 47499809 19083839
    ∷ row "061352" "Keleti pályaudvar M" 47499809 19084145
    ∷ row "061367" "Puskás Ferenc Stadion M" 47499880 19107530
    ∷ row "061368" "Munkás utca" 47499918 19079088
    ∷ row "061378" "Szőlőskert utca" 47502266 18916790
    ∷ row "061379" "Maglód, Auchan áruház" 47459226 19332051
    ∷ row "062375" "Közvágóhíd H" 47467310 19077928
    ∷ row "062511" "Than Károly utca" 47460867 19025127
    ∷ row "062512" "Borszéki utca" 47458420 19023497
    ∷ row "062513" "Jégmadár utca" 47430794 19005802
    ∷ row "062514" "Jégmadár utca" 47430722 19005656
    ∷ row "062515" "Török utca" 47412771 18989465
    ∷ row "062516" "Török utca" 47412851 18988856
    ∷ row "062517" "Rózsák tere" 47501817 19075598
    ∷ row "062518" "Március 15. tér" 47491881 19051747
    ∷ row "062519" "Gazdagréti út" 47462741 19005126
    ∷ row "062521" "Corvin-negyed M" 47486357 19068850
    ∷ row "062522" "XIII. utca / Dózsa György út" 47411172 18993786
    ∷ row "062538" "Kereszt utca" 47422366 19036857
    ∷ row "062604" "Nyár utca" 47435693 18918493
    ∷ row "062607" "Infopark (Pázmány Péter sétány)" 47469854 19062994
    ∷ row "062608" "Magyar tudósok körútja" 47471473 19063671
    ∷ row "062620" "Egyetemváros - A38 hajóállomás" 47474504 19063061
    ∷ row "062621" "Egyetemváros - A38 hajóállomás" 47473730 19063592
    ∷ row "062622" "Magyar tudósok körútja" 47472183 19063857
    ∷ row "062726" "Régi vám" 47445619 19005506
    ∷ row "062815" "Szent László utca" 47405382 18999105
    ∷ row "062861" "Dagály fürdő" 47537850 19062428
    ∷ row "062942" "Péterfy Sándor utca" 47501636 19077828
    ∷ row "062944" "Czetz János köz" 47578206 19049333
    ∷ row "062946" "Attila utca" 47581300 19049413
    ∷ row "062948" "Mátyás király út" 47586373 19050024
    ∷ row "062950" "Bercsényi utca" 47585689 19051181
    ∷ row "063399" "Hulladékhasznosító Mű" 47584113 19131087
    ∷ row "063526" "Lehel tér M (kelet)" 47516534 19060882
    ∷ row "064067" "Massányi úti lakópark" 47359933 19028746
    ∷ row "064074" "Massányi úti lakópark" 47360751 19027739
    ∷ row "064075" "Szigetszentmiklós, Szabadság utca" 47358296 19031884
    ∷ row "064085" "Kölcsey Ferenc utca" 47355275 19034823
    ∷ row "064087" "Lehel utca" 47352883 19038490
    ∷ row "064088" "Városi Könyvtár" 47344797 19042250
    ∷ row "064089" "Miklós Pláza" 47341631 19040874
    ∷ row "064090" "Nap utca (óvoda)" 47349535 19025706
    ∷ row "064091" "Váci Mihály utca (József Attila-telep H)" 47338455 19035846
    ∷ row "064092" "Jókai utca" 47341252 19035951
    ∷ row "064093" "Akácfa körút" 47344229 19033185
    ∷ row "064103" "Tamási Áron utca" 47345047 19028076
    ∷ row "064104" "Miklós tér" 47346953 19023219
    ∷ row "064105" "Szebeni utca" 47350638 19016265
    ∷ row "064106" "Nap utca (óvoda)" 47349733 19026063
    ∷ row "064107" "Ősz utca" 47352943 19024778
    ∷ row "064108" "Ady Endre utca" 47355057 19025849
    ∷ row "064170" "Ady Endre utca" 47355831 19027066
    ∷ row "064175" "Ősz utca" 47352386 19025321
    ∷ row "064181" "Miklós tér" 47347331 19023126
    ∷ row "064182" "Tamási Áron utca" 47345002 19028765
    ∷ row "064183" "Akácfa körút" 47343852 19034217
    ∷ row "064184" "Jókai utca" 47341072 19035806
    ∷ row "064185" "Váci Mihály utca (József Attila-telep H)" 47338590 19035687
    ∷ row "064186" "Kisfaludy utca" 47342349 19045001
    ∷ row "064187" "Lehel utca" 47352892 19038688
    ∷ row "064188" "Kölcsey Ferenc utca" 47354951 19035366
    ∷ row "064208" "Szépvölgyi köz" 47541088 19001940
    ∷ row "064209" "Szépvölgyi köz" 47541088 19001608
    ∷ row "064210" "Fenyőgyöngye" 47540370 19005647
    ∷ row "064212" "Selyemakác utca" 47543118 18996373
    ∷ row "064214" "Selyemakác utca" 47543064 18996307
    ∷ row "064215" "Szépvölgyi dűlő" 47545841 18992119
    ∷ row "064239" "Leshegy utca" 47376933 19033996
    ∷ row "064240" "Leshegy utca" 47377059 19032169
    ∷ row "064241" "Leshegy Ipari Park" 47376071 19042074
    ∷ row "064242" "Leshegy Ipari Park" 47375567 19041941
    ∷ row "064243" "Temető utca" 47356175 19046921
    ∷ row "064244" "Wesselényi utca" 47351111 19045280
    ∷ row "064245" "Bánki Donát utca" 47360366 19047556
    ∷ row "064246" "Bányató út" 47367661 19048324
    ∷ row "064316" "Bányató út" 47366860 19048032
    ∷ row "064317" "Bánki Donát utca" 47359457 19047263
    ∷ row "064318" "Temető utca" 47355356 19045862
    ∷ row "064319" "Wesselényi utca" 47352046 19045385
    ∷ row "064377" "Ürömhegyi út / Jutas utca [8]" 47582618 19015383
    ∷ row "066451" "Infopark" 47469194 19059729
    ∷ row "066452" "Infopark" 47469086 19060499
    ∷ row "066453" "Budafoki út / Dombóvári út" 47469797 19053667
    ∷ row "066454" "Budafoki út / Dombóvári út" 47469644 19054370
    ∷ row "066455" "Hauszmann Alajos utca / Szerémi út" 47466559 19049568
    ∷ row "066456" "Hauszmann Alajos utca / Szerémi út" 47467035 19049754
    ∷ row "066457" "Hengermalom út / Szerémi út" 47462097 19048308
    ∷ row "066458" "Hengermalom út / Szerémi út" 47462583 19048507
    ∷ row "066459" "Etele út / Fehérvári út" 47462376 19042618
    ∷ row "066460" "Etele út / Fehérvári út" 47462277 19043347
    ∷ row "066477" "Hunyadi János út tároló" 47431139 19042741
    ∷ row "066679" "Pallós utca" 47487056 19291849
    ∷ row "066680" "Pallós utca" 47487030 19291490
    ∷ row "066681" "Jókai Mór Általános Iskola" 47487994 19294732
    ∷ row "066682" "Jókai Mór Általános Iskola" 47487878 19294148
    ∷ row "066683" "Csabamező utca / Göcsej utca" 47486350 19298268
    ∷ row "066684" "Csabamező utca / Göcsej utca" 47486233 19297962
    ∷ row "066685" "Ecsedháza köz" 47487963 19300796
    ∷ row "066686" "Ecsedháza köz" 47488008 19300770
    ∷ row "066687" "Ede utca" 47490036 19303089
    ∷ row "066688" "Ede utca" 47490153 19302983
    ∷ row "066697" "Rés utca" 47480157 19291817
    ∷ row "066700" "Szárazhegy köz" 47473213 19300607
    ∷ row "066701" "Nagyszentmiklósi út" 47476203 19302637
    ∷ row "066711" "Rákoscsaba-Újtelep vasútállomás" 47486549 19271041
    ∷ row "066712" "Szabadság sugárút / Péceli út" 47482938 19273347
    ∷ row "066713" "Szabadság sugárút / Péceli út" 47482631 19274063
    ∷ row "066714" "Nyitány utca" 47480756 19275992
    ∷ row "066715" "Nyitány utca" 47481053 19275794
    ∷ []
