-- ===== src/StopList/Part35.antt =====
-- Lines 5271 to 5420 of bkk_uds/bkk_stop_list.h.
use mathlib.Core.List.{List, [], ◌∷◌}
use bkk_api.StopList.Row.{BkkStop, row}

unfoldable pub stops_35 : List BkkStop
stops_35 =
    row "F04100" "Mártírok útja / Nagysándor József utca" 47443675 19122966
    ∷ row "F04101" "Mártírok útja / Nagysándor József utca" 47443407 19121415
    ∷ row "F04102" "Lázár utca / Nagysándor József utca" 47439865 19118003
    ∷ row "F04103" "Lázár utca / Nagysándor József utca" 47440369 19117964
    ∷ row "F04104" "Lázár utca / Nagysándor József utca" 47440575 19118070
    ∷ row "F04105" "Lázár utca / Nagysándor József utca" 47439550 19118228
    ∷ row "F04106" "Szabótelep" 47440369 19116638
    ∷ row "F04107" "Vécsey utca" 47438562 19115283
    ∷ row "F04108" "Szent Imre herceg utca" 47436657 19112338
    ∷ row "F04109" "Szent Imre herceg utca" 47437107 19112246
    ∷ row "F04110" "Székelyhíd utca" 47432264 19119080
    ∷ row "F04111" "Nagysándor József utca" 47436020 19109554
    ∷ row "F04112" "Nagysándor József utca" 47435516 19110203
    ∷ row "F04113" "Török Flóris utca" 47435507 19109500
    ∷ row "F04115" "Török Flóris utca" 47435544 19109142
    ∷ row "F04116" "Vörösmarty utca" 47434313 19106649
    ∷ row "F04117" "Vörösmarty utca" 47433540 19105548
    ∷ row "F04118" "Pesterzsébet, Kossuth Lajos utca" 47435260 19099902
    ∷ row "F04119" "Pesterzsébet, Kossuth Lajos utca" 47435098 19100260
    ∷ row "F04120" "Pesterzsébet vasútállomás" 47433570 19097740
    ∷ row "F04121" "Pesterzsébet vasútállomás" 47433984 19097674
    ∷ row "F04122" "Pesterzsébet, városközpont" 47437553 19101283
    ∷ row "F04123" "Pesterzsébet, városközpont" 47437643 19100872
    ∷ row "F04125" "János utca" 47438383 19096830
    ∷ row "F04126" "János utca" 47439813 19096566
    ∷ row "F04127" "Ady Endre utca (Topánka utca)" 47438883 19103154
    ∷ row "F04128" "Ady Endre utca" 47439468 19103486
    ∷ row "F04129" "Ady Endre utca (Topánka utca)" 47439422 19104666
    ∷ row "F04130" "Kossuth Lajos utca" 47439382 19105570
    ∷ row "F04131" "János tér" 47441708 19102560
    ∷ row "F04132" "János tér" 47441465 19103011
    ∷ row "F04133" "Szent Erzsébet tér" 47440545 19107875
    ∷ row "F04134" "Szent Erzsébet tér" 47440710 19108302
    ∷ row "F04135" "Szent Erzsébet tér" 47439645 19108656
    ∷ row "F04136" "Tátra tér" 47442999 19111630
    ∷ row "F04137" "Tátra tér" 47442603 19111285
    ∷ row "F04138" "Kossuth Lajos utca" 47443178 19112624
    ∷ row "F04139" "Kossuth Lajos utca / Mártírok útja" 47446647 19116620
    ∷ row "F04140" "Kossuth Lajos utca / Mártírok útja" 47446081 19116539
    ∷ row "F04141" "Kossuth Lajos utca / Mártírok útja" 47446161 19117481
    ∷ row "F04142" "Pesterzsébet felső H" 47439139 19094179
    ∷ row "F04143" "Pesterzsébet felső H" 47437943 19094059
    ∷ row "F04144" "Pesterzsébet, Baross utca" 47436871 19097438
    ∷ row "F04145" "Pesterzsébet, Baross utca" 47436646 19097690
    ∷ row "F04146" "Csepeli átjáró" 47436090 19095038
    ∷ row "F04147" "Csepeli átjáró" 47436593 19095158
    ∷ row "F04148" "Sósfürdő" 47436335 19090226
    ∷ row "F04149" "Sósfürdő" 47436262 19091008
    ∷ row "F04152" "Török Flóris utca" 47444012 19099752
    ∷ row "F04153" "Török Flóris utca" 47443994 19099951
    ∷ row "F04154" "Pesterzsébet, Mátyás király tér" 47432732 19132813
    ∷ row "F04155" "Attila utca" 47431329 19101529
    ∷ row "F04156" "Attila utca" 47431922 19102749
    ∷ row "F04157" "Akácfa utca" 47424426 19111157
    ∷ row "F04158" "Akácfa utca" 47423688 19111792
    ∷ row "F04159" "Akácfa utca" 47425912 19114118
    ∷ row "F04160" "Klapka utca" 47428684 19111179
    ∷ row "F04161" "Bolyai János utca" 47422122 19113500
    ∷ row "F04162" "Lehel utca" 47421942 19113845
    ∷ row "F04163" "Károly utca" 47423235 19117014
    ∷ row "F04164" "Frangepán utca" 47424265 19123350
    ∷ row "F04165" "Mesgye utca" 47419930 19136715
    ∷ row "F04166" "Mesgye utca" 47420434 19135842
    ∷ row "F04167" "Vaskapu utca" 47434310 19139139
    ∷ row "F04168" "Mézes utca" 47438001 19120599
    ∷ row "F04169" "Mézes utca" 47437614 19121022
    ∷ row "F04170" "Zobor utca" 47440421 19125670
    ∷ row "F04171" "Zobor utca" 47440796 19124951
    ∷ row "F04172" "Thököly utca" 47445716 19109034
    ∷ row "F04173" "Szigligeti utca" 47449177 19113029
    ∷ row "F04174" "Szigligeti utca" 47448934 19113533
    ∷ row "F04177" "Karácsony Sándor utca H" 47427166 19067475
    ∷ row "F04178" "József Attila utca" 47425112 19084174
    ∷ row "F04179" "József Attila utca" 47424176 19083908
    ∷ row "F04180" "Csepel, Horgásztanya" 47388092 19103472
    ∷ row "F04181" "Csepel-Királyerdő" 47397886 19106529
    ∷ row "F04182" "Károli Gáspár utca" 47429324 19072367
    ∷ row "F04185" "II. Rákóczi Ferenc út" 47422941 19067632
    ∷ row "F04186" "Kolozsvári utca" 47426094 19078171
    ∷ row "F04187" "Katona József utca" 47426381 19078621
    ∷ row "F04188" "Komáromi utca" 47426335 19082067
    ∷ row "F04189" "Komáromi utca" 47426238 19083088
    ∷ row "F04191" "Görgey Artúr tér" 47424018 19069754
    ∷ row "F04192" "Görgey Artúr tér" 47423604 19069767
    ∷ row "F04193" "Szent István út" 47422102 19068441
    ∷ row "F04194" "Görgey Artúr tér" 47422938 19072669
    ∷ row "F04195" "Görgey Artúr tér" 47424044 19071927
    ∷ row "F04196" "Bajcsy-Zsilinszky út" 47422780 19074684
    ∷ row "F04197" "Bajcsy-Zsilinszky út" 47422829 19075200
    ∷ row "F04198" "Kikötő utca" 47422412 19087048
    ∷ row "F04199" "Kikötő utca" 47422286 19088108
    ∷ row "F04200" "Völgy utca" 47418694 19066876
    ∷ row "F04201" "Kölcsey utca" 47411948 19068026
    ∷ row "F04202" "Kölcsey utca (Erdősor utca)" 47412631 19067112
    ∷ row "F04203" "Sporttelep" 47420581 19072734
    ∷ row "F04204" "Sporttelep" 47420051 19073357
    ∷ row "F04205" "Béke tér" 47417956 19068665
    ∷ row "F04206" "Bánya utca" 47417407 19069460
    ∷ row "F04207" "Kölcsey utca" 47416345 19071606
    ∷ row "F04208" "Völgy utca" 47416534 19072136
    ∷ row "F04209" "Kölcsey utca" 47415940 19072613
    ∷ row "F04210" "Völgy utca" 47415518 19071645
    ∷ row "F04211" "Dr. Koncz János tér" 47413585 19069047
    ∷ row "F04212" "Dr. Koncz János tér" 47414025 19069750
    ∷ row "F04213" "Szebeni utca" 47420057 19083561
    ∷ row "F04214" "Kassai utca" 47420156 19083760
    ∷ row "F04215" "Kikötő utca" 47419678 19086344
    ∷ row "F04216" "Kikötő utca" 47419741 19086940
    ∷ row "F04217" "Lőcsei utca" 47419263 19091101
    ∷ row "F04218" "Lőcsei utca" 47418777 19091299
    ∷ row "F04219" "Strandfürdő" 47408007 19099744
    ∷ row "F04220" "Strandfürdő" 47407486 19100114
    ∷ row "F04221" "Csepel csónakház" 47404607 19101131
    ∷ row "F04222" "Csepel csónakház" 47404013 19101502
    ∷ row "F04223" "Ladik utca" 47401458 19102930
    ∷ row "F04224" "Ladik utca" 47401260 19103261
    ∷ row "F04226" "Csepel, Soroksári rév" 47398237 19105947
    ∷ row "F04227" "Csepel, Soroksári rév" 47397661 19106622
    ∷ row "F04228" "Csepel, Hollandi út" 47392022 19105755
    ∷ row "F04229" "Csepel, Hollandi út" 47392139 19105397
    ∷ row "F04230" "Szent István út" 47391374 19106125
    ∷ row "F04231" "Szent István út" 47391841 19106351
    ∷ row "F04232" "Erdősor utca" 47410040 19072398
    ∷ row "F04233" "Csikó sétány" 47409132 19072994
    ∷ row "F04234" "Csille utca" 47406603 19077179
    ∷ row "F04235" "Szent László utcai lakótelep" 47406827 19080240
    ∷ row "F04236" "Fémmű utca" 47408843 19078320
    ∷ row "F04237" "Posztó utca" 47410858 19076175
    ∷ row "F04238" "Festő utca" 47413448 19076971
    ∷ row "F04239" "Martinász utca" 47413295 19077461
    ∷ row "F04240" "Varrógép utca" 47408176 19082162
    ∷ row "F04241" "Varrógép utca" 47408051 19082122
    ∷ row "F04242" "Tihanyi utca" 47404595 19085512
    ∷ row "F04243" "Tihanyi utca" 47405297 19085115
    ∷ row "F04244" "Fátra utca" 47401842 19087192
    ∷ row "F04245" "Fátra utca" 47401455 19087602
    ∷ row "F04246" "Csepel, Királyerdő út" 47390461 19096389
    ∷ row "F04247" "Csepel, Királyerdő út" 47390614 19096402
    ∷ row "F04248" "Martinász utca" 47415417 19079755
    ∷ row "F04249" "Nyárfás utca" 47415237 19080378
    ∷ row "F04250" "Borz út" 47413041 19085663
    ∷ row "F04251" "Orgonás utca" 47413050 19085902
    ∷ row "F04252" "Pinty utca" 47411376 19087954
    ∷ row "F04253" "Tölgyes út" 47410557 19088868
    ∷ row "F04254" "Szarka utca" 47408128 19090668
    ∷ row "F04255" "Iszalag utca" 47407813 19090774
    ∷ row "F04256" "Repkény út" 47405907 19090626
    ∷ row "F04257" "Repkény út" 47404692 19091023
    ∷ row "F04258" "Királyerdei Művelődési Ház" 47401345 19094014
    ∷ row "F04259" "Királyerdei Művelődési Ház" 47401075 19094676
    ∷ []
