-- ===== src/StopList/Part12.antt =====
-- Lines 1821 to 1970 of bkk_uds/bkk_stop_list.h.
use mathlib.Core.List.{List, [], ◌∷◌}
use bkk_api.StopList.Row.{BkkStop, row}

unfoldable pub stops_12 : List BkkStop
stops_12 =
    row "F00204" "Rét utca" 47514715 19023855
    ∷ row "F00205" "Ady Endre utca" 47516864 19024236
    ∷ row "F00206" "Ady Endre utca" 47516657 19024196
    ∷ row "F00207" "Tapolcsányi utca" 47517511 19021128
    ∷ row "F00208" "Tapolcsányi utca" 47517394 19020903
    ∷ row "F00209" "Eszter utca" 47520111 19021914
    ∷ row "F00210" "Eszter utca" 47520084 19021729
    ∷ row "F00211" "Vend utca" 47521685 19020480
    ∷ row "F00212" "Vend utca" 47521082 19021064
    ∷ row "F00213" "Pusztaszeri körönd" 47523213 19017398
    ∷ row "F00214" "Pusztaszeri körönd" 47523087 19017730
    ∷ row "F00215" "Pusztaszeri körönd" 47522826 19017452
    ∷ row "F00216" "Pusztaszeri körönd" 47522682 19017478
    ∷ row "F00217" "Vend utca" 47523591 19020359
    ∷ row "F00218" "Vend utca" 47523456 19020611
    ∷ row "F00219" "Cimbalom utca" 47524347 19023001
    ∷ row "F00220" "Cimbalom utca" 47524060 19023054
    ∷ row "F00221" "Vérhalom tér" 47520903 19025140
    ∷ row "F00222" "Vérhalom tér" 47520579 19024769
    ∷ row "F00223" "Mandula utca" 47519816 19028845
    ∷ row "F00224" "Mandula utca" 47519609 19028620
    ∷ row "F00225" "Sarolta utca" 47522478 19031925
    ∷ row "F00226" "Kavics utca" 47521003 19031859
    ∷ row "F00227" "Vérhalom utca" 47519052 19033453
    ∷ row "F00228" "Szemlőhegy utca" 47516919 19027798
    ∷ row "F00229" "Rómer Flóris utca" 47516748 19027930
    ∷ row "F00230" "Zivatar utca" 47515607 19031714
    ∷ row "F00231" "Zivatar utca" 47515715 19031170
    ∷ row "F00232" "Margit körút" 47513817 19033945
    ∷ row "F00233" "Apostol utca" 47514635 19033212
    ∷ row "F00234" "Margit híd, budai hídfő H" 47515985 19039521
    ∷ row "F00235" "Margit híd, budai hídfő H" 47515365 19039282
    ∷ row "F00236" "Margit híd, budai hídfő H" 47515041 19038937
    ∷ row "F00237" "Margit híd, budai hídfő H" 47515518 19038339
    ∷ row "F00239" "Szent Lukács Gyógyfürdő" 47517118 19036533
    ∷ row "F00240" "Szent Lukács Gyógyfürdő" 47516840 19036573
    ∷ row "F00241" "Komjádi Béla utca" 47520635 19036798
    ∷ row "F00242" "Komjádi Béla utca" 47520338 19036612
    ∷ row "F00243" "Zsigmond tér" 47524251 19036930
    ∷ row "F00244" "Zsigmond tér" 47523954 19036824
    ∷ row "F00245" "Zsigmond tér" 47524991 19037951
    ∷ row "F00246" "Zsigmond tér" 47524053 19037421
    ∷ row "F00247" "Császár-Komjádi uszoda" 47521409 19038272
    ∷ row "F00248" "Császár-Komjádi uszoda" 47519610 19038046
    ∷ row "F00249" "Felhévízi utca" 47526579 19030224
    ∷ row "F00250" "Felhévízi utca" 47526993 19031392
    ∷ row "F00251" "Pusztaszeri út 25." 47527784 19028470
    ∷ row "F00252" "Pusztaszeri út 25." 47527451 19028444
    ∷ row "F00253" "Alsó Zöldmáli út" 47528378 19027328
    ∷ row "F00254" "Alsó Zöldmáli út" 47528180 19027076
    ∷ row "F00255" "Szemlő-hegyi-barlang" 47528791 19024420
    ∷ row "F00256" "Szemlő-hegyi-barlang" 47528710 19024168
    ∷ row "F00257" "Zöldmáli lejtő" 47528610 19021645
    ∷ row "F00258" "Zöldmáli lejtő" 47528502 19021605
    ∷ row "F00259" "Zöldkert út" 47529543 19011127
    ∷ row "F00260" "Zöldkert út" 47529381 19011074
    ∷ row "F00261" "Pitypang utca" 47530037 19008683
    ∷ row "F00262" "Pitypang utca" 47529803 19009042
    ∷ row "F00264" "Verecke lépcső" 47529019 19004288
    ∷ row "F00265" "Verecke lépcső" 47529117 19003624
    ∷ row "F00266" "Verecke lépcső" 47529027 19002548
    ∷ row "F00267" "Tömörkény utca" 47527437 19007649
    ∷ row "F00268" "Tömörkény utca" 47527185 19007702
    ∷ row "F00269" "Móricz Zsigmond Gimnázium" 47525387 19009988
    ∷ row "F00270" "Móricz Zsigmond Gimnázium" 47525522 19009310
    ∷ row "F00271" "Vöröstorony lépcső" 47531354 18997248
    ∷ row "F00272" "Vöröstorony lépcső" 47530905 18998032
    ∷ row "F00273" "Nagybányai út" 47533628 18993368
    ∷ row "F00276" "Pasaréti tér" 47523636 18994268
    ∷ row "F00277" "Pasaréti tér" 47523707 18993139
    ∷ row "F00278" "Pasaréti tér" 47523500 18992834
    ∷ row "F00279" "Pasaréti tér" 47523519 18993126
    ∷ row "F00280" "Harangvirág utca" 47521794 18997536
    ∷ row "F00281" "Harangvirág utca" 47521398 18997881
    ∷ row "F00282" "Virág árok" 47519178 19000990
    ∷ row "F00283" "Virág árok" 47519501 19000446
    ∷ row "F00284" "Gábor Áron utca / Pasaréti út" 47516193 19004525
    ∷ row "F00285" "Gábor Áron utca / Pasaréti út" 47516742 19003940
    ∷ row "F00286" "Júlia utca" 47514243 19007221
    ∷ row "F00287" "Júlia utca" 47514665 19006491
    ∷ row "F00288" "Vasas sportpálya" 47511940 19008418
    ∷ row "F00289" "Vasas sportpálya" 47511464 19008896
    ∷ row "F00290" "Fenyves utca" 47523334 19002248
    ∷ row "F00291" "Fenyves utca" 47523199 19002421
    ∷ row "F00292" "Tüske utca" 47521195 19006326
    ∷ row "F00293" "Bimbó köz" 47521779 19005569
    ∷ row "F00294" "Gábor Áron utca" 47519642 19010466
    ∷ row "F00295" "Endrődi Sándor utca" 47521071 19012168
    ∷ row "F00296" "Lóczy Lajos utca" 47519037 19009634
    ∷ row "F00297" "Hankóczy Jenő utca" 47516869 19008918
    ∷ row "F00298" "Zilah utca" 47515584 19011535
    ∷ row "F00299" "Detrekő utca" 47517284 19012582
    ∷ row "F00300" "Balogvár utca" 47515360 19014522
    ∷ row "F00301" "Ruszti út" 47514973 19014549
    ∷ row "F00302" "Rókushegyi lépcső" 47512896 19017019
    ∷ row "F00303" "Lorántffy Zsuzsanna út" 47512555 19017444
    ∷ row "F00304" "Ezredes utca" 47510460 19021043
    ∷ row "F00305" "Fény utcai piac" 47508275 19023766
    ∷ row "F00306" "Széna tér" 47508472 19026948
    ∷ row "F00307" "Széna tér" 47508140 19026735
    ∷ row "F00308" "Széna tér" 47508491 19027319
    ∷ row "F00309" "Széna tér" 47508365 19027386
    ∷ row "F00310" "Kelemen László utca" 47522392 18989170
    ∷ row "F00311" "Kelemen László utca" 47521646 18990446
    ∷ row "F00312" "Kelemen László utca" 47521952 18990326
    ∷ row "F00313" "Kelemen László utca" 47521602 18990632
    ∷ row "F00314" "Zuhatag sor" 47526015 18986046
    ∷ row "F00315" "Zuhatag sor" 47526159 18985767
    ∷ row "F00316" "Nagyhíd" 47528541 18983692
    ∷ row "F00317" "Nagyhíd" 47528245 18983825
    ∷ row "F00318" "Vadaskerti utca" 47531796 18980992
    ∷ row "F00319" "Vadaskerti utca" 47531885 18980780
    ∷ row "F00320" "Budenz út" 47520269 18988841
    ∷ row "F00321" "Szent Ferenc Kórház" 47525983 18976870
    ∷ row "F00322" "Tárogató út" 47527406 18979431
    ∷ row "F00323" "Bölöni György utca" 47525781 18984479
    ∷ row "F00324" "Bölöni György utca" 47525816 18984213
    ∷ row "F00325" "Szerb Antal utca" 47528081 18981422
    ∷ row "F00326" "Szerb Antal utca" 47528324 18980970
    ∷ row "F00327" "Lipótmezei út" 47530490 18978816
    ∷ row "F00328" "Lipótmezei út" 47531002 18978058
    ∷ row "F00329" "Nyéki út" 47534771 18973917
    ∷ row "F00330" "Nyéki út" 47534507 18973990
    ∷ row "F00331" "Csibor utca" 47536690 18969139
    ∷ row "F00332" "Csibor utca" 47536070 18970574
    ∷ row "F00339" "Bátori László utca" 47544673 18963548
    ∷ row "F00340" "Bátori László utca" 47544528 18963362
    ∷ row "F00345" "Heinrich István utca" 47539461 18970264
    ∷ row "F00346" "Heinrich István utca" 47539281 18970689
    ∷ row "F00347" "Völgy utca" 47536739 18975395
    ∷ row "F00348" "Völgy utca" 47536415 18975621
    ∷ row "F00350" "Ady lépcső" 47543425 18945020
    ∷ row "F00351" "Adyliget" 47547259 18938264
    ∷ row "F00352" "Adyliget" 47546963 18938730
    ∷ row "F00353" "Villám utca" 47545042 18952482
    ∷ row "F00354" "Villám utca" 47545204 18952734
    ∷ row "F00355" "Nagyrét utca" 47546535 18952865
    ∷ row "F00356" "Bükkfa utca" 47546460 18960477
    ∷ row "F00357" "Bükkfa utca" 47546478 18960012
    ∷ row "F00358" "Hunyadi János utca" 47548568 18964777
    ∷ row "F00359" "Hunyadi János utca" 47548037 18964619
    ∷ row "F00360" "Kossuth Lajos utca" 47552138 18964307
    ∷ row "F00361" "Kossuth Lajos utca" 47552039 18964107
    ∷ row "F00362" "Kerényi Frigyes utca" 47553017 18949359
    ∷ row "F00363" "Kerényi Frigyes utca" 47553079 18949186
    ∷ row "F00364" "Ábránd utca" 47551279 18947223
    ∷ row "F00365" "Ábránd utca" 47551549 18946997
    ∷ row "F00366" "Turul utca" 47548106 18949740
    ∷ row "F00367" "Turul utca" 47548259 18949421
    ∷ row "F00368" "Széchenyi utca" 47547714 18954457
    ∷ []
