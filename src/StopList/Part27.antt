-- ===== src/StopList/Part27.antt =====
-- Lines 4071 to 4220 of bkk_uds/bkk_stop_list.h.
use mathlib.Core.List.{List, [], ◌∷◌}
use bkk_api.StopList.Row.{BkkStop, row}

unfoldable pub stops_27 : List BkkStop
stops_27 =
    row "F02757" "Örs vezér tere M+H" 47504881 19136419
    ∷ row "F02758" "Örs vezér tere M+H" 47505123 19136353
    ∷ row "F02759" "Örs vezér tere M+H" 47504898 19136843
    ∷ row "F02760" "Örs vezér tere M+H" 47505132 19136777
    ∷ row "F02761" "Örs vezér tere M+H" 47504727 19136883
    ∷ row "F02762" "Örs vezér tere M+H" 47504556 19136936
    ∷ row "F02763" "Örs vezér tere M+H" 47504277 19137042
    ∷ row "F02764" "Örs vezér tere M+H" 47503972 19136669
    ∷ row "F02765" "Álmos vezér útja" 47507333 19140578
    ∷ row "F02766" "Álmos vezér útja" 47507108 19140723
    ∷ row "F02767" "Füredi utca / Ond vezér útja" 47506343 19141213
    ∷ row "F02768" "Füredi utca / Ond vezér útja" 47506360 19142155
    ∷ row "F02769" "Ond vezér park" 47506473 19147186
    ∷ row "F02770" "Ond vezér park" 47506222 19146164
    ∷ row "F02771" "Ond vezér útja / Szentmihályi út" 47507477 19150348
    ∷ row "F02772" "Ond vezér útja / Szentmihályi út" 47507460 19150188
    ∷ row "F02773" "Vezér utca" 47509822 19143197
    ∷ row "F02774" "Füredi utca" 47509498 19143090
    ∷ row "F02775" "Füredi utca / Szentmihályi út" 47510889 19147261
    ∷ row "F02776" "Füredi utca / Szentmihályi út" 47510637 19147247
    ∷ row "F02777" "Csertő utca" 47513309 19146230
    ∷ row "F02778" "Csertő utca" 47513003 19146468
    ∷ row "F02779" "Csertő utca" 47513120 19146495
    ∷ row "F02781" "Zsálya utca" 47516136 19143195
    ∷ row "F02782" "Zsálya utca" 47515830 19143725
    ∷ row "F02783" "Fischer István utca" 47515329 19139861
    ∷ row "F02784" "Fischer István utca" 47515051 19139038
    ∷ row "F02786" "Vezér utca / Fogarasi út" 47513883 19137323
    ∷ row "F02787" "Fogarasi út" 47513523 19137110
    ∷ row "F02788" "Fogarasi út" 47513092 19137202
    ∷ row "F02789" "Vezér utca / Fogarasi út" 47513353 19136074
    ∷ row "F02790" "Mogyoródi út" 47517405 19130359
    ∷ row "F02791" "Mogyoródi út" 47517513 19129947
    ∷ row "F02792" "Gvadányi utca" 47520944 19135954
    ∷ row "F02793" "Öv utca / Mogyoródi út" 47524520 19141019
    ∷ row "F02794" "Egressy tér" 47514317 19120610
    ∷ row "F02795" "Egressy tér" 47515317 19119097
    ∷ row "F02796" "Egressy tér" 47514893 19119830
    ∷ row "F02797" "Egressy tér" 47514586 19120613
    ∷ row "F02798" "Egressy tér" 47514300 19119229
    ∷ row "F02799" "Egressy tér" 47514120 19119215
    ∷ row "F02800" "Turán utca" 47517303 19123964
    ∷ row "F02801" "Turán utca" 47516627 19122910
    ∷ row "F02802" "Egressy út / Vezér utca" 47519116 19127308
    ∷ row "F02803" "Egressy út / Vezér utca" 47519009 19126245
    ∷ row "F02804" "Egressy út / Vezér utca" 47519395 19127215
    ∷ row "F02805" "Kála utca" 47522720 19130858
    ∷ row "F02806" "Rákosmezei tér" 47524158 19132719
    ∷ row "F02807" "Rákosmezei tér" 47524769 19133504
    ∷ row "F02808" "Öv utca / Egressy út" 47526763 19136628
    ∷ row "F02809" "Szugló utca / Cinkotai út" 47526716 19127133
    ∷ row "F02810" "Szugló utca / Cinkotai út" 47526862 19127523
    ∷ row "F02811" "Komócsy utca" 47521304 19123318
    ∷ row "F02812" "Komócsy utca" 47521529 19122667
    ∷ row "F02813" "Szugló utca / Nagy Lajos király útja" 47517495 19116206
    ∷ row "F02814" "Szugló utca / Nagy Lajos király útja" 47517360 19115691
    ∷ row "F02815" "Szugló utca / Nagy Lajos király útja" 47517568 19115104
    ∷ row "F02816" "Szugló utca / Nagy Lajos király útja" 47516875 19115541
    ∷ row "F02817" "Szugló utca / Nagy Lajos király útja" 47517054 19116192
    ∷ row "F02818" "Szugló utca / Nagy Lajos király útja" 47517171 19116208
    ∷ row "F02819" "Szugló utca / Róna utca" 47514224 19110998
    ∷ row "F02820" "Szugló utca / Róna utca" 47514539 19111104
    ∷ row "F02821" "Tisza István tér" 47516357 19108040
    ∷ row "F02823" "Tisza István tér" 47516364 19107099
    ∷ row "F02824" "Tisza István tér" 47516951 19108478
    ∷ row "F02828" "Bosnyák tér" 47519791 19111471
    ∷ row "F02829" "Bosnyák tér" 47519772 19112427
    ∷ row "F02830" "Bosnyák tér" 47519476 19111336
    ∷ row "F02831" "Bosnyák tér" 47519485 19111763
    ∷ row "F02832" "Bosnyák tér" 47519250 19112560
    ∷ row "F02833" "Bosnyák tér" 47519817 19112295
    ∷ row "F02834" "Bosnyák tér" 47518775 19111282
    ∷ row "F02835" "Bosnyák tér" 47519892 19112835
    ∷ row "F02837" "Bosnyák tér" 47519728 19111684
    ∷ row "F02844" "Rákospatak utca / Csömöri út" 47524437 19118329
    ∷ row "F02845" "Rákospatak utca / Csömöri út" 47524554 19118781
    ∷ row "F02846" "Miskolci utca / Csömöri út" 47527214 19122035
    ∷ row "F02847" "Miskolci utca / Csömöri út" 47525992 19120280
    ∷ row "F02848" "Cinkotai út" 47528472 19123842
    ∷ row "F02849" "Cinkotai út" 47528466 19123409
    ∷ row "F02850" "Telepes utca" 47530452 19121335
    ∷ row "F02851" "Öv utca" 47530596 19121668
    ∷ row "F02852" "Fűrész utca" 47523307 19113372
    ∷ row "F02853" "Fűrész utca" 47523603 19113864
    ∷ row "F02854" "Telepes utca" 47520718 19110647
    ∷ row "F02855" "Szuglói körvasút sor" 47535071 19113227
    ∷ row "F02857" "Öv utca" 47534389 19112485
    ∷ row "F02858" "Öv utca" 47534748 19112711
    ∷ row "F02859" "Öv utca" 47534217 19113239
    ∷ row "F02861" "Rákospatak utca" 47529228 19107563
    ∷ row "F02863" "Rákospatak utca" 47528644 19107113
    ∷ row "F02865" "Nagy Lajos király útja / Czobor utca" 47522827 19102034
    ∷ row "F02866" "Nagy Lajos király útja / Czobor utca" 47522352 19101636
    ∷ row "F02867" "Nagy Lajos király útja / Czobor utca" 47522125 19102589
    ∷ row "F02868" "Nagy Lajos király útja / Czobor utca" 47522818 19101156
    ∷ row "F02869" "Nagy Lajos király útja / Czobor utca" 47522404 19102458
    ∷ row "F02873" "Korong utca" 47514770 19097140
    ∷ row "F02875" "Korong utca" 47514680 19097072
    ∷ row "F02876" "Erzsébet királyné útja, aluljáró" 47517407 19094034
    ∷ row "F02879" "Erzsébet királyné útja, aluljáró" 47517569 19093252
    ∷ row "F02880" "Erzsébet királyné útja, aluljáró" 47517847 19093053
    ∷ row "F02881" "Erzsébet királyné útja, aluljáró" 47516849 19093967
    ∷ row "F02882" "Mexikói út M" 47519989 19090585
    ∷ row "F02883" "Mexikói út M" 47519773 19090651
    ∷ row "F02884" "Mexikói út M" 47519944 19091261
    ∷ row "F02885" "Mexikói út M" 47519747 19090943
    ∷ row "F02886" "Mexikói út M" 47520133 19091527
    ∷ row "F02887" "Mexikói út" 47519592 19090573
    ∷ row "F02888" "Mexikói út" 47519513 19091037
    ∷ row "F02890" "Mexikói út M" 47519387 19090690
    ∷ row "F02891" "Kacsóh Pongrác út" 47518236 19089680
    ∷ row "F02892" "Kacsóh Pongrác út" 47517759 19089560
    ∷ row "F02893" "Kacsóh Pongrác út" 47519099 19088115
    ∷ row "F02894" "Kacsóh Pongrác út" 47518704 19088553
    ∷ row "F02895" "Mexikói út" 47521761 19092006
    ∷ row "F02898" "Kassai tér" 47524799 19096550
    ∷ row "F02899" "Kassai tér" 47524016 19098116
    ∷ row "F02900" "Kassai tér" 47524142 19098475
    ∷ row "F02901" "Kassai tér" 47523539 19098753
    ∷ row "F02902" "Kassai tér" 47523512 19097863
    ∷ row "F02903" "Pándorfalu utca" 47529512 19102706
    ∷ row "F02904" "Pándorfalu utca" 47529770 19103062
    ∷ row "F02905" "Rákospatak utca" 47530967 19101071
    ∷ row "F02906" "Róna park" 47535636 19105701
    ∷ row "F02908" "Csáktornya park" 47536399 19107149
    ∷ row "F02909" "Miskolci utca" 47532555 19110650
    ∷ row "F02911" "Miskolci utca" 47532204 19110424
    ∷ row "F02913" "Szentes utca" 47526776 19117240
    ∷ row "F02914" "Szentes utca" 47526462 19117054
    ∷ row "F02915" "Róna utca" 47511865 19115416
    ∷ row "F02916" "Róna utca" 47512197 19116159
    ∷ row "F02917" "Törökőr utca" 47507930 19107672
    ∷ row "F02918" "Törökőr utca" 47508190 19108442
    ∷ row "F02919" "Erzsébet királyné útja, aluljáró" 47516625 19092480
    ∷ row "F02920" "Erzsébet királyné útja, aluljáró" 47516625 19092825
    ∷ row "F02921" "Erzsébet királyné útja, aluljáró" 47516139 19092639
    ∷ row "F02922" "Erzsébet királyné útja, aluljáró" 47515690 19092665
    ∷ row "F02923" "Erzsébet királyné útja, aluljáró" 47516427 19091910
    ∷ row "F02924" "Erzsébet királyné útja, aluljáró" 47516814 19091406
    ∷ row "F02925" "Amerikai út (Mexikói út M)" 47521347 19092471
    ∷ row "F02928" "Pillangó utca" 47503499 19118511
    ∷ row "F02929" "Pillangó utca" 47503472 19118830
    ∷ row "F02930" "Kaffka Margit utca" 47507946 19126455
    ∷ row "F02931" "Kaffka Margit utca" 47507865 19126667
    ∷ row "F02932" "Tihamér utca" 47511875 19139829
    ∷ row "F02933" "Tihamér utca" 47511588 19139669
    ∷ row "F02934" "Újváros park" 47514650 19145197
    ∷ row "F02935" "Újváros park" 47514830 19144719
    ∷ row "F02936" "Mályva utca" 47511593 19133297
    ∷ row "F02937" "Mályva utca" 47511232 19132304
    ∷ []
