-- ===== src/StopList/Part29.antt =====
-- Lines 4371 to 4520 of bkk_uds/bkk_stop_list.h.
use mathlib.Core.List.{List, [], ◌∷◌}
use bkk_api.StopList.Row.{BkkStop, row}

unfoldable pub stops_29 : List BkkStop
stops_29 =
    row "F03102" "Rákospalota, MÁV-telep" 47541542 19121590
    ∷ row "F03103" "Rákospalota, MÁV-telep" 47541389 19120939
    ∷ row "F03104" "Rákospalota, MÁV-telep" 47542666 19122242
    ∷ row "F03105" "Rákospalota, MÁV-telep" 47542406 19121126
    ∷ row "F03106" "Szerencs utca / Bánkút utca" 47546404 19127534
    ∷ row "F03107" "Szerencs utca / Bánkút utca" 47546314 19127441
    ∷ row "F03110" "Szerencs utca / Bánkút utca" 47546848 19127101
    ∷ row "F03111" "Szerencs utca / Bánkút utca" 47546521 19126857
    ∷ row "F03112" "Szerencs utca" 47549672 19122199
    ∷ row "F03113" "Szerencs utca" 47549744 19122823
    ∷ row "F03114" "Damjanich János utca" 47549997 19120937
    ∷ row "F03115" "Damjanich János utca" 47550780 19119782
    ∷ row "F03116" "Szerencs utca" 47551519 19117777
    ∷ row "F03117" "Klapka György utca" 47552082 19122428
    ∷ row "F03118" "Klapka György utca" 47551768 19122401
    ∷ row "F03119" "Kozák tér" 47550120 19125228
    ∷ row "F03120" "Kozák tér" 47550236 19125747
    ∷ row "F03121" "Bercsényi Miklós utca" 47548835 19123380
    ∷ row "F03122" "Bercsényi Miklós utca" 47548997 19123765
    ∷ row "F03123" "Bercsényi Miklós utca" 47548439 19123751
    ∷ row "F03124" "Bercsényi Miklós utca" 47548178 19124030
    ∷ row "F03125" "Bánkút utca" 47549432 19131591
    ∷ row "F03126" "Páskomliget utca" 47548595 19132453
    ∷ row "F03127" "Rákospalotai köztemető" 47551940 19133667
    ∷ row "F03129" "Rákospalotai köztemető" 47551832 19133773
    ∷ row "F03130" "Szerencs utca" 47543802 19131449
    ∷ row "F03131" "Pestújhelyi út" 47544180 19131091
    ∷ row "F03133" "Templom tér" 47541635 19129984
    ∷ row "F03134" "Thököly út" 47538251 19133897
    ∷ row "F03135" "Thököly út" 47538161 19133897
    ∷ row "F03136" "Apolló utca" 47537242 19135250
    ∷ row "F03137" "Apolló utca" 47536946 19134639
    ∷ row "F03138" "Madách utca" 47538752 19136408
    ∷ row "F03139" "Madách utca" 47539093 19137697
    ∷ row "F03140" "Nyírpalota út" 47537591 19137376
    ∷ row "F03141" "Késmárk utca" 47537214 19136858
    ∷ row "F03142" "Késmárk utca" 47529892 19148930
    ∷ row "F03143" "Késmárk utca 11." 47530127 19148041
    ∷ row "F03144" "Újpalota, Szentmihályi út" 47541942 19151423
    ∷ row "F03145" "Újpalota, Szentmihályi út" 47541258 19151741
    ∷ row "F03146" "Újpalota, Szentmihályi út" 47541663 19151091
    ∷ row "F03147" "Újpalota, Szentmihályi út" 47541511 19151401
    ∷ row "F03148" "Erdőkerülő utca" 47541151 19151023
    ∷ row "F03149" "Újpalota, Erdőkerülő utca" 47539546 19145362
    ∷ row "F03150" "Erdőkerülő utca" 47539681 19144884
    ∷ row "F03151" "Fő tér" 47540945 19139162
    ∷ row "F03152" "Fő tér" 47541511 19140106
    ∷ row "F03153" "Fő tér" 47541618 19141651
    ∷ row "F03154" "Fő tér" 47542447 19140816
    ∷ row "F03155" "Fő tér" 47541959 19141196
    ∷ row "F03156" "Fő tér" 47542184 19140997
    ∷ row "F03157" "Vásárcsarnok" 47545962 19140592
    ∷ row "F03158" "Vásárcsarnok" 47545153 19139873
    ∷ row "F03159" "Vásárcsarnok" 47545487 19138293
    ∷ row "F03160" "Vásárcsarnok" 47545200 19138212
    ∷ row "F03161" "Vásárcsarnok" 47544821 19139035
    ∷ row "F03162" "Vásárcsarnok" 47545028 19138863
    ∷ row "F03163" "Újpalota, Nyírpalota út" 47546842 19142293
    ∷ row "F03164" "Újpalota, Nyírpalota út" 47546734 19142492
    ∷ row "F03165" "Újpalota, Nyírpalota út" 47547329 19141457
    ∷ row "F03166" "Nyírpalota út" 47547923 19140210
    ∷ row "F03167" "Újpalota, Sárfű utca" 47549814 19138101
    ∷ row "F03168" "Opál utca" 47542237 19117128
    ∷ row "F03169" "Opál utca" 47542030 19117154
    ∷ row "F03170" "Árokhát út" 47577021 19124496
    ∷ row "F03171" "Árokhát út" 47577327 19124882
    ∷ row "F03172" "Karatna tér" 47542988 19109119
    ∷ row "F03173" "Karatna tér" 47542997 19108694
    ∷ row "F03174" "Karatna tér" 47543051 19108548
    ∷ row "F03175" "Rákospalota, Székely Elek út" 47579610 19126786
    ∷ row "F03176" "Székely Elek út" 47579709 19127052
    ∷ row "F03177" "Rákospalota, MÁV-telep" 47541910 19123104
    ∷ row "F03179" "Rädda Barnen utca" 47557205 19113560
    ∷ row "F03180" "Rädda Barnen utca" 47557313 19113493
    ∷ row "F03181" "Wesselényi utca" 47549828 19116898
    ∷ row "F03182" "Wesselényi utca" 47549235 19116805
    ∷ row "F03183" "Beller Imre utca" 47554902 19115457
    ∷ row "F03184" "Beller Imre utca" 47554883 19115895
    ∷ row "F03185" "Emlék tér" 47537050 19126657
    ∷ row "F03186" "Emlék tér" 47536772 19126630
    ∷ row "F03187" "Ady Endre utca" 47535346 19120280
    ∷ row "F03188" "Ady Endre utca" 47535273 19120771
    ∷ row "F03189" "Wesselényi utca" 47544050 19123692
    ∷ row "F03190" "Wesselényi utca" 47544032 19123400
    ∷ row "F03191" "Sárfű utca" 47547865 19134059
    ∷ row "F03192" "Sárfű utca" 47547991 19133661
    ∷ row "F03193" "Sárfű utca" 47547307 19135187
    ∷ row "F03194" "Sárfű utca" 47546533 19135943
    ∷ row "F03195" "Molnár Viktor utca" 47533531 19130490
    ∷ row "F03196" "Molnár Viktor utca" 47533558 19130251
    ∷ row "F03197" "Késmárk utca 20." 47531532 19145626
    ∷ row "F03198" "Késmárk utca 9." 47532226 19144114
    ∷ row "F03199" "Fázis utca" 47534198 19141036
    ∷ row "F03200" "Fázis utca" 47533694 19141540
    ∷ row "F03201" "Erdőkerülő utca 28." 47540002 19147780
    ∷ row "F03202" "Erdőkerülő utca 27." 47540155 19148538
    ∷ row "F03203" "Szent Korona útja" 47547779 19115076
    ∷ row "F03204" "Szent Korona útja" 47547212 19114570
    ∷ row "F03205" "Tóth István utca" 47538280 19117003
    ∷ row "F03206" "Tóth István utca" 47537902 19116604
    ∷ row "F03209" "Zsókavár utca" 47541032 19143160
    ∷ row "F03210" "Gusztáv utca" 47539491 19174184
    ∷ row "F03211" "Gusztáv utca" 47538771 19174900
    ∷ row "F03212" "Csömöri út" 47534814 19181876
    ∷ row "F03213" "Csömöri út (Szlovák út)" 47534589 19182048
    ∷ row "F03214" "Kisszentmihály, Baross utca" 47536708 19177750
    ∷ row "F03215" "Baross utca" 47536320 19178360
    ∷ row "F03216" "Szlovák út" 47532188 19189147
    ∷ row "F03217" "Timur utca" 47531586 19189238
    ∷ row "F03218" "Timur utca" 47531487 19189132
    ∷ row "F03219" "Gusztáv utca" 47535883 19166698
    ∷ row "F03220" "Gusztáv utca" 47535352 19167095
    ∷ row "F03221" "György utca" 47530832 19172291
    ∷ row "F03222" "Csömöri út" 47530751 19171627
    ∷ row "F03223" "Diófa utca" 47530347 19171573
    ∷ row "F03224" "Mátyás király utca" 47532680 19176306
    ∷ row "F03225" "Rákosszentmihály, Csömöri út" 47532113 19176398
    ∷ row "F03226" "Mátyás király utca" 47532114 19175441
    ∷ row "F03227" "Mátyás király utca" 47527539 19181260
    ∷ row "F03228" "Mátyás király utca 71." 47528034 19180465
    ∷ row "F03229" "Rákosi út" 47527692 19180663
    ∷ row "F03230" "Mátyásföldi tér" 47523226 19185246
    ∷ row "F03231" "Mátyásföldi tér" 47523361 19184967
    ∷ row "F03232" "Sasvár utca" 47520363 19187536
    ∷ row "F03233" "Sasvár utca" 47519886 19188251
    ∷ row "F03234" "Olga utca" 47521404 19181829
    ∷ row "F03235" "Fuvallat utca" 47509879 19185065
    ∷ row "F03236" "Fuvallat utca" 47510085 19185597
    ∷ row "F03237" "Ballada utca" 47504084 19187732
    ∷ row "F03238" "Ballada utca" 47504280 19188582
    ∷ row "F03239" "Galgahévíz utca" 47503486 19183071
    ∷ row "F03240" "Galgahévíz utca" 47503693 19183629
    ∷ row "F03241" "Sashalom H" 47508708 19178465
    ∷ row "F03242" "Sashalom H" 47508284 19180243
    ∷ row "F03243" "Sashalom H" 47509165 19180364
    ∷ row "F03244" "Sashalom H" 47509373 19179210
    ∷ row "F03245" "Futórózsa utca" 47515223 19185301
    ∷ row "F03246" "Budapesti út" 47520301 19179396
    ∷ row "F03247" "Margit utca" 47511868 19176216
    ∷ row "F03248" "Margit utca" 47511417 19176932
    ∷ row "F03249" "Budapesti út" 47516452 19170770
    ∷ row "F03250" "Budapesti út" 47516100 19171354
    ∷ row "F03251" "Rákosi út" 47523628 19171690
    ∷ row "F03252" "János utca" 47523160 19171835
    ∷ row "F03253" "Rákosi út" 47521348 19166998
    ∷ row "F03254" "József utca" 47520917 19166638
    ∷ row "F03255" "József utca" 47520917 19167010
    ∷ row "F03256" "Rákosi út" 47520853 19167647
    ∷ row "F03257" "János utca" 47528965 19168197
    ∷ row "F03258" "Csömöri út" 47528796 19166603
    ∷ []
