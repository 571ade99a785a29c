-- ===== src/StopList/Part22.antt =====
-- Lines 3321 to 3470 of bkk_uds/bkk_stop_list.h.
use mathlib.Core.List.{List, [], ◌∷◌}
use bkk_api.StopList.Row.{BkkStop, row}

unfoldable pub stops_22 : List BkkStop
stops_22 =
    row "F01915" "Alabástrom utca" 47451619 19017984
    ∷ row "F01916" "Őrmezei út" 47454965 19018844
    ∷ row "F01917" "Őrmezei út" 47454767 19018553
    ∷ row "F01918" "Igmándi utca" 47456657 19020010
    ∷ row "F01919" "Zelk Zoltán út / Neszmélyi út" 47458266 19019360
    ∷ row "F01920" "Menyecske utca" 47459766 19017273
    ∷ row "F01921" "Menyecske utca" 47460251 19017379
    ∷ row "F01922" "Kérő utca" 47461924 19015866
    ∷ row "F01923" "Kérő utca" 47462034 19016320
    ∷ row "F01924" "Neszmélyi út" 47460194 19015030
    ∷ row "F01925" "Sasadi út" 47466954 19015972
    ∷ row "F01926" "Sasadi út" 47467215 19016596
    ∷ row "F01927" "Sasadi út" 47465155 19015363
    ∷ row "F01928" "Nagyszeben út" 47464794 19011477
    ∷ row "F01929" "Jégvirág utca" 47462230 19008853
    ∷ row "F01930" "Gazdagréti út" 47462111 19004888
    ∷ row "F01931" "Gazdagréti út" 47462750 19005922
    ∷ row "F01932" "Poprádi út" 47461354 18999172
    ∷ row "F01933" "Poprádi út" 47461183 18999464
    ∷ row "F01934" "Keserűvíz-forrás" 47458538 18997345
    ∷ row "F01935" "Keserűvíz-forrás" 47458268 18996894
    ∷ row "F01936" "Vitorlázó út" 47452427 18990774
    ∷ row "F01937" "Vitorlázó út" 47452769 18990932
    ∷ row "F01938" "Torma utca" 47450370 19019682
    ∷ row "F01940" "Kecskeméti József utca" 47449183 19020730
    ∷ row "F01941" "Duránci utca" 47451036 19022625
    ∷ row "F01942" "Duránci utca" 47449930 19022997
    ∷ row "F01943" "Narancs utca" 47447709 19025411
    ∷ row "F01944" "Narancs utca" 47448167 19025080
    ∷ row "F01945" "Gépész utca" 47453320 19021537
    ∷ row "F01946" "Gépész utca" 47452988 19023234
    ∷ row "F01947" "Hajtány sor" 47455281 19024042
    ∷ row "F01948" "Hajtány sor" 47456334 19023790
    ∷ row "F01951" "Than Károly utca" 47460943 19025336
    ∷ row "F01952" "Borszéki utca" 47458541 19023745
    ∷ row "F01955" "Bikás park M" 47463558 19032845
    ∷ row "F01956" "Bikás park M" 47463783 19032872
    ∷ row "F01958" "Bikás park M" 47464277 19033826
    ∷ row "F01959" "Bikás park M" 47464205 19033561
    ∷ row "F01960" "Bornemissza tér" 47458435 19033573
    ∷ row "F01962" "Bornemissza tér" 47458278 19033324
    ∷ row "F01964" "Csurgói út" 47455157 19033232
    ∷ row "F01965" "Csurgói út" 47453979 19033445
    ∷ row "F01966" "Nyírbátor utca" 47450156 19033194
    ∷ row "F01967" "Nyírbátor utca" 47449545 19033366
    ∷ row "F01968" "Fonyód utca / Sáfrány utca" 47444535 19033646
    ∷ row "F01969" "Fonyód utca / Sáfrány utca" 47443905 19033885
    ∷ row "F01970" "Albertfalva vasútállomás" 47441603 19034191
    ∷ row "F01972" "Vegyész utca" 47442548 19045261
    ∷ row "F01973" "Vegyész utca" 47443025 19045685
    ∷ row "F01974" "Építész utca" 47448017 19046334
    ∷ row "F01975" "Építész utca" 47447081 19045923
    ∷ row "F01976" "Kondorosi út" 47449438 19049052
    ∷ row "F01977" "Kondorosi út" 47449168 19049119
    ∷ row "F01980" "Galvani utca" 47455407 19051598
    ∷ row "F01981" "Galvani utca" 47455374 19051970
    ∷ row "F01982" "Hengermalom út" 47461274 19051692
    ∷ row "F01983" "Hengermalom út" 47461031 19051798
    ∷ row "F01984" "Budafoki út / Dombóvári út" 47468595 19052979
    ∷ row "F01985" "Budafoki út / Dombóvári út" 47469788 19053309
    ∷ row "F01986" "Budafoki út / Szerémi sor" 47474361 19052621
    ∷ row "F01988" "Budafoki út / Szerémi sor" 47473623 19053178
    ∷ row "F01989" "Budafoki út / Szerémi sor" 47473691 19052818
    ∷ row "F01990" "Budafoki út / Szerémi sor" 47473875 19052847
    ∷ row "F01991" "Budafoki út / Szerémi sor" 47472823 19052568
    ∷ row "F01992" "Budafoki út / Szerémi sor" 47474114 19053747
    ∷ row "F01995" "Újbuda-központ M" 47473785 19047395
    ∷ row "F01997" "Újbuda-központ M" 47474467 19046478
    ∷ row "F01998" "Újbuda-központ M" 47474042 19046862
    ∷ row "F01999" "Újbuda-központ M" 47474800 19046664
    ∷ row "F02000" "Újbuda-központ M" 47474037 19048469
    ∷ row "F02002" "Hauszmann Alajos utca" 47467917 19043997
    ∷ row "F02003" "Hauszmann Alajos utca" 47467039 19043919
    ∷ row "F02004" "Hauszmann Alajos utca" 47467345 19043933
    ∷ row "F02005" "Hauszmann Alajos utca" 47467539 19044222
    ∷ row "F02006" "Etele út / Fehérvári út" 47462695 19040922
    ∷ row "F02007" "Etele út / Fehérvári út" 47462218 19042740
    ∷ row "F02008" "Etele út / Fehérvári út" 47461778 19041785
    ∷ row "F02009" "Etele út / Fehérvári út" 47463398 19042572
    ∷ row "F02010" "Etele út / Fehérvári út" 47462639 19042274
    ∷ row "F02011" "Etele út / Fehérvári út" 47461985 19042262
    ∷ row "F02012" "Andor utca" 47456327 19040194
    ∷ row "F02013" "Andor utca" 47456129 19039889
    ∷ row "F02014" "Andor utca" 47455715 19039836
    ∷ row "F02015" "Andor utca" 47455482 19039558
    ∷ row "F02016" "Albertfalva kitérő" 47452172 19038418
    ∷ row "F02017" "Albertfalva kitérő" 47452666 19038776
    ∷ row "F02019" "Albertfalva utca" 47447926 19037583
    ∷ row "F02020" "Albertfalva utca" 47447620 19037371
    ∷ row "F02021" "Albertfalva utca" 47447422 19037504
    ∷ row "F02022" "Albertfalva utca" 47447333 19037597
    ∷ row "F02024" "Fonyód utca" 47443789 19036908
    ∷ row "F02025" "Fonyód utca" 47443483 19036709
    ∷ row "F02026" "Fonyód utca" 47443654 19037001
    ∷ row "F02027" "Fonyód utca" 47443267 19036829
    ∷ row "F02028" "Budafok kocsiszín" 47440794 19036484
    ∷ row "F02029" "Budafok kocsiszín" 47441783 19036577
    ∷ row "F02030" "Budafok kocsiszín" 47441324 19036498
    ∷ row "F02031" "Budafok kocsiszín" 47441414 19036378
    ∷ row "F02032" "Tétényi út 30." 47466355 19034157
    ∷ row "F02033" "Tétényi út 30." 47466328 19033866
    ∷ row "F02034" "Szent Imre Kórház" 47469445 19033716
    ∷ row "F02035" "Szent Imre Kórház" 47468064 19033839
    ∷ row "F02037" "Szent Gellért-templom" 47469151 19024898
    ∷ row "F02038" "Szent Gellért-templom" 47468566 19023744
    ∷ row "F02039" "Szent Gellért-templom" 47468620 19024102
    ∷ row "F02040" "Csóka utca (Karinthy Színház)" 47470851 19029195
    ∷ row "F02041" "Csóka utca (Karinthy Színház)" 47470734 19028532
    ∷ row "F02042" "Csóka utca (Karinthy Színház)" 47470698 19028585
    ∷ row "F02043" "Csóka utca (Karinthy Színház)" 47470752 19029129
    ∷ row "F02044" "Karolina út" 47471473 19033466
    ∷ row "F02045" "Karolina út" 47472719 19033025
    ∷ row "F02046" "Karolina út" 47472838 19033676
    ∷ row "F02047" "Karolina út" 47472696 19033201
    ∷ row "F02048" "Karolina út" 47473371 19035389
    ∷ row "F02049" "Ajnácskő utca" 47473639 19025480
    ∷ row "F02050" "Ajnácskő utca" 47473621 19025122
    ∷ row "F02051" "Ajnácskő utca" 47474340 19025042
    ∷ row "F02052" "Ajnácskő utca" 47474475 19024776
    ∷ row "F02053" "Dayka Gábor utca" 47470616 19019684
    ∷ row "F02054" "Dayka Gábor utca" 47470427 19020056
    ∷ row "F02055" "Nagyszeben tér" 47466609 19005401
    ∷ row "F02056" "Nagyszeben tér" 47466326 19005476
    ∷ row "F02057" "Frankhegy utca" 47470705 19001307
    ∷ row "F02058" "Frankhegy utca" 47471055 19001174
    ∷ row "F02059" "Kaptárkő utca" 47471841 18999401
    ∷ row "F02060" "Kaptárkő utca" 47472560 18998419
    ∷ row "F02061" "Regős utca" 47465007 19003718
    ∷ row "F02062" "Regős utca" 47465241 19003599
    ∷ row "F02063" "Törökugrató utca" 47466526 19000905
    ∷ row "F02064" "Törökugrató utca" 47466814 19000679
    ∷ row "F02065" "Szent Angyalok-templom" 47468845 18996605
    ∷ row "F02066" "Szent Angyalok-templom" 47469213 18996247
    ∷ row "F02067" "Tűzkő utca" 47470121 18994813
    ∷ row "F02068" "Tűzkő utca" 47470499 18994707
    ∷ row "F02069" "Kamaraerdei út 11." 47442968 18978905
    ∷ row "F02070" "Kamaraerdei út 11." 47443076 18978732
    ∷ row "F02071" "Telekes utca" 47473611 18996136
    ∷ row "F02072" "Telekes utca" 47473935 18995871
    ∷ row "F02073" "Szent Pio atya tér" 47474580 18989847
    ∷ row "F02074" "Szent Pio atya tér" 47474966 18989051
    ∷ row "F02075" "Irhás árok" 47476530 18987351
    ∷ row "F02076" "Irhás árok" 47476728 18987470
    ∷ row "F02077" "Oltvány köz" 47478133 18991130
    ∷ row "F02078" "Oltvány köz" 47478151 18990865
    ∷ row "F02079" "Eper utca" 47480589 18992547
    ∷ row "F02080" "Eper utca" 47480895 18992680
    ∷ row "F02081" "Márton Áron tér" 47481887 18998171
    ∷ row "F02082" "Márton Áron tér" 47481680 18999021
    ∷ row "F02083" "Márton Áron tér" 47481524 18998882
    ∷ []
