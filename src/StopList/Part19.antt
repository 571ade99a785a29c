-- ===== src/StopList/Part19.antt =====
-- Lines 2871 to 3020 of bkk_uds/bkk_stop_list.h.
use mathlib.Core.List.{List, [], ◌∷◌}
use bkk_api.StopList.Row.{BkkStop, row}

unfoldable pub stops_19 : List BkkStop
stops_19 =
    row "F01412" "Nemzeti Atlétikai Stadion" 47464154 19073350
    ∷ row "F01413" "Magyar Aszfalt" 47459702 19087871
    ∷ row "F01414" "Magyar Aszfalt" 47459828 19087645
    ∷ row "F01417" "Kén utca H (Illatos út)" 47454819 19087509
    ∷ row "F01418" "Kén utca H" 47455179 19086422
    ∷ row "F01419" "Kén utca H" 47454351 19087283
    ∷ row "F01420" "Kén utca H (Illatos út)" 47454603 19087947
    ∷ row "F01421" "Illatos út" 47454674 19090479
    ∷ row "F01422" "Gubacsi út" 47454332 19090121
    ∷ row "F01423" "Gubacsi út" 47453864 19091924
    ∷ row "F01424" "Illatos út" 47453621 19091248
    ∷ row "F01425" "Külső Mester utca" 47454240 19096221
    ∷ row "F01426" "Külső Mester utca" 47454338 19097441
    ∷ row "F01427" "Timót utca" 47452218 19091870
    ∷ row "F01428" "Timót utca" 47451831 19092254
    ∷ row "F01429" "Timót utca / Soroksári út" 47451661 19088740
    ∷ row "F01430" "Timót utca / Soroksári út" 47450870 19088872
    ∷ row "F01431" "Szabadkai út" 47444311 19092818
    ∷ row "F01432" "Szabadkai út" 47443529 19092884
    ∷ row "F01434" "Gubacsi út / Határ út" 47444364 19097233
    ∷ row "F01435" "Gubacsi út / Határ út" 47444525 19097498
    ∷ row "F01436" "Gubacsi út / Határ út" 47444067 19096928
    ∷ row "F01437" "Gubacsi út / Határ út" 47444292 19096530
    ∷ row "F01438" "Gubacsi út / Határ út" 47444529 19097752
    ∷ row "F01439" "Gubacsi út / Határ út" 47443800 19096743
    ∷ row "F01440" "Határ út" 47442053 19094990
    ∷ row "F01441" "Baross utca" 47441549 19095056
    ∷ row "F01442" "Ősz utca" 47446039 19100206
    ∷ row "F01443" "Ősz utca" 47446219 19100299
    ∷ row "F01444" "Jókai Mór utca / Határ út" 47449023 19104505
    ∷ row "F01445" "Jókai Mór utca / Határ út" 47448663 19104147
    ∷ row "F01446" "Jókai Mór utca / Határ út" 47448560 19104980
    ∷ row "F01447" "Mártírok útja / Határ út" 47452052 19109070
    ∷ row "F01448" "Mártírok útja / Határ út" 47451863 19108991
    ∷ row "F01449" "Mártírok útja / Határ út" 47450887 19110592
    ∷ row "F01450" "Mártírok útja / Határ út" 47451814 19109439
    ∷ row "F01451" "Nagykőrösi út / Határ út" 47455418 19114695
    ∷ row "F01452" "Nagykőrösi út / Határ út" 47455431 19114034
    ∷ row "F01453" "Nagykőrösi út / Határ út" 47455706 19113714
    ∷ row "F01454" "Nagykőrösi út / Határ út" 47455764 19114684
    ∷ row "F01455" "Mészáros Lőrinc utca" 47459749 19120986
    ∷ row "F01456" "Mészáros Lőrinc utca" 47459300 19120044
    ∷ row "F01457" "Mészáros Lőrinc utca" 47459543 19120283
    ∷ row "F01458" "Mészáros Lőrinc utca" 47459714 19120363
    ∷ row "F01459" "Határ út M" 47464405 19126338
    ∷ row "F01460" "Határ út M" 47464878 19125957
    ∷ row "F01461" "Határ út M" 47465008 19126180
    ∷ row "F01462" "Határ út M" 47464963 19126073
    ∷ row "F01463" "Kőér utcai uszoda" 47466517 19126213
    ∷ row "F01464" "Kőér utcai uszoda" 47466644 19126500
    ∷ row "F01465" "Pöttyös utca M" 47468800 19117431
    ∷ row "F01466" "Pöttyös utca M" 47468746 19116873
    ∷ row "F01467" "Friss utca" 47463421 19117928
    ∷ row "F01468" "Valéria tér" 47464933 19116099
    ∷ row "F01469" "Valéria tér" 47465339 19114389
    ∷ row "F01470" "Lobogó utca" 47462029 19114915
    ∷ row "F01471" "Lobogó utca" 47461686 19115565
    ∷ row "F01474" "Táblás utca" 47455370 19103250
    ∷ row "F01475" "Táblás utca" 47455477 19104974
    ∷ row "F01476" "Aszódi utca" 47463682 19100792
    ∷ row "F01477" "Merényi Gusztáv Kórház" 47468179 19101048
    ∷ row "F01478" "Füleki utca" 47466209 19102134
    ∷ row "F01479" "Gyáli út" 47464706 19103857
    ∷ row "F01481" "Közterületfenntartó Zrt." 47468472 19108092
    ∷ row "F01482" "Közterületfenntartó Zrt." 47467691 19106513
    ∷ row "F01483" "Közterületfenntartó Zrt." 47468419 19107270
    ∷ row "F01484" "Közterületfenntartó Zrt." 47467839 19107669
    ∷ row "F01485" "Közterületfenntartó Zrt." 47468163 19107683
    ∷ row "F01486" "Közterületfenntartó Zrt." 47468103 19108291
    ∷ row "F01487" "Ifjúmunkás utca" 47468147 19110997
    ∷ row "F01488" "Ifjúmunkás utca" 47468273 19110944
    ∷ row "F01489" "Ecseri út M" 47470194 19111160
    ∷ row "F01490" "Ecseri út M" 47470499 19111347
    ∷ row "F01491" "Ecseri út M" 47471085 19109105
    ∷ row "F01492" "Péceli utca" 47469484 19099352
    ∷ row "F01493" "Ecseri út" 47471127 19110331
    ∷ row "F01494" "Ecseri út" 47470529 19111646
    ∷ row "F01495" "Ecseri út M" 47471301 19109437
    ∷ row "F01496" "Ecseri út M" 47470863 19111889
    ∷ row "F01497" "Ecseri út M" 47470881 19111132
    ∷ row "F01498" "Albert Flórián út" 47472423 19095522
    ∷ row "F01499" "Albert Flórián út" 47472746 19096119
    ∷ row "F01500" "Albert Flórián út" 47472525 19095428
    ∷ row "F01501" "Albert Flórián út" 47473586 19097154
    ∷ row "F01502" "Ferencváros vá. - Málenkij Robot Eh." 47470293 19089285
    ∷ row "F01503" "Ferencváros vá. - Málenkij Robot Eh." 47470204 19088529
    ∷ row "F01504" "Ferencváros vá. - Málenkij Robot Eh." 47470693 19090147
    ∷ row "F01505" "Ferencváros vá. - Málenkij Robot Eh." 47470028 19088727
    ∷ row "F01506" "Mester utca / Könyves Kálmán körút" 47469814 19082997
    ∷ row "F01507" "Mester utca / Könyves Kálmán körút" 47470226 19082760
    ∷ row "F01508" "Mester utca / Könyves Kálmán körút" 47469921 19084469
    ∷ row "F01509" "Mester utca / Könyves Kálmán körút" 47469687 19085106
    ∷ row "F01510" "Balázs Béla utca" 47477027 19082736
    ∷ row "F01511" "Balázs Béla utca" 47476946 19082590
    ∷ row "F01512" "Balázs Béla utca" 47476775 19081953
    ∷ row "F01513" "Balázs Béla utca" 47476668 19081661
    ∷ row "F01514" "Boráros tér H" 47479945 19067547
    ∷ row "F01515" "Boráros tér H" 47479495 19067865
    ∷ row "F01516" "Boráros tér H (Közraktár utca)" 47481600 19064894
    ∷ row "F01518" "Boráros tér H" 47480077 19066074
    ∷ row "F01519" "Boráros tér H" 47479726 19066299
    ∷ row "F01525" "Csengettyű utca" 47463592 19109481
    ∷ row "F01526" "Csengettyű utca" 47463466 19109693
    ∷ row "F01527" "Közvágóhíd H" 47468917 19073724
    ∷ row "F01529" "Népliget M" 47475905 19099862
    ∷ row "F01531" "Balkán utca" 47474086 19116060
    ∷ row "F01532" "Balkán utca" 47473762 19115768
    ∷ row "F01533" "Sporttelep" 47478782 19113665
    ∷ row "F01534" "Sporttelep" 47478921 19112867
    ∷ row "F01535" "Fertő utca / Bihari utca" 47476099 19119168
    ∷ row "F01536" "Fertő utca / Bihari utca" 47476351 19118319
    ∷ row "F01537" "Fertő utca / Bihari utca" 47475279 19120069
    ∷ row "F01538" "Fertő utca / Bihari utca" 47475766 19118849
    ∷ row "F01539" "Basa utca" 47470602 19126533
    ∷ row "F01540" "Basa utca" 47470292 19126827
    ∷ row "F01541" "Határ út" 47466285 19124821
    ∷ row "F01542" "Határ út" 47465749 19126228
    ∷ row "F01543" "Kőbánya-Kispest" 47463930 19147412
    ∷ row "F01544" "Kőbánya-Kispest" 47463443 19148764
    ∷ row "F01545" "Felsőcsatári út" 47457379 19177716
    ∷ row "F01546" "Hangár utca" 47461699 19167024
    ∷ row "F01547" "Gyömrői út 105." 47463169 19163472
    ∷ row "F01548" "Gyömrői út 132." 47463566 19162107
    ∷ row "F01549" "Árpád utca" 47463657 19177904
    ∷ row "F01550" "Árpád utca" 47464098 19178090
    ∷ row "F01551" "Álmos utca" 47467524 19178576
    ∷ row "F01552" "Álmos utca" 47467043 19178702
    ∷ row "F01553" "Bogáncsvirág utca" 47483620 19196209
    ∷ row "F01554" "Csillagvirág utca" 47483485 19196275
    ∷ row "F01555" "Kőbánya felső vasútállomás" 47492543 19133824
    ∷ row "F01556" "IV. kapu" 47492023 19130466
    ∷ row "F01557" "II. kapu" 47491551 19123909
    ∷ row "F01558" "Vásárközpont, főbejárat" 47493100 19121005
    ∷ row "F01559" "Pongrácz úti lakótelep" 47490753 19120923
    ∷ row "F01560" "Pongrácz úti lakótelep" 47490410 19121360
    ∷ row "F01561" "Őrház" 47489473 19124517
    ∷ row "F01562" "Őrház" 47489482 19125008
    ∷ row "F01563" "Kismartoni út" 47484126 19116668
    ∷ row "F01564" "Kismartoni út" 47483676 19117463
    ∷ row "F01565" "Kismartoni út" 47484081 19117318
    ∷ row "F01566" "Kismartoni út" 47484018 19117198
    ∷ row "F01567" "Mázsa utca" 47483195 19123384
    ∷ row "F01568" "Mázsa utca" 47483106 19123287
    ∷ row "F01569" "Kőbánya alsó vasútállomás" 47483437 19126485
    ∷ row "F01570" "Kőbánya alsó vasútállomás" 47483500 19126220
    ∷ row "F01571" "Kőbánya alsó vasútállomás (Mázsa tér)" 47482879 19125715
    ∷ row "F01572" "Kőbánya alsó vasútállomás (Mázsa tér)" 47482564 19126059
    ∷ row "F01574" "Kőbánya alsó vasútállomás (Mázsa tér)" 47481742 19127070
    ∷ row "F01575" "Kocsis Sándor Sportközpont" 47478758 19123470
    ∷ row "F01576" "Kocsis Sándor Sportközpont" 47478902 19123895
    ∷ []
