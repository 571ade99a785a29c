-- ===== src/StopList/Part31.antt =====
-- Lines 4671 to 4820 of bkk_uds/bkk_stop_list.h.
use mathlib.Core.List.{List, [], ◌∷◌}
use bkk_api.StopList.Row.{BkkStop, row}

unfoldable pub stops_31 : List BkkStop
stops_31 =
    row "F03434" "Ebergény utca" 47490710 19303317
    ∷ row "F03435" "Pöröly utca" 47491460 19297270
    ∷ row "F03436" "Pöröly utca" 47491334 19297442
    ∷ row "F03437" "Sági utca" 47473827 19273136
    ∷ row "F03438" "Sági utca" 47473502 19273745
    ∷ row "F03439" "Czeglédi Mihály utca" 47489453 19289697
    ∷ row "F03440" "Czeglédi Mihály utca" 47489837 19290787
    ∷ row "F03441" "Rákoscsaba vasútállomás" 47491088 19281822
    ∷ row "F03442" "Rákoscsaba vasútállomás" 47491708 19281891
    ∷ row "F03443" "Aranykút utca" 47493839 19278078
    ∷ row "F03444" "Színes utca" 47490650 19306051
    ∷ row "F03445" "Színes utca" 47490669 19305294
    ∷ row "F03446" "Hősök tere" 47489170 19259374
    ∷ row "F03447" "Hősök tere" 47490033 19259736
    ∷ row "F03448" "Tura utca" 47489182 19277089
    ∷ row "F03449" "Vidor utca" 47495319 19240607
    ∷ row "F03450" "Vidor utca" 47494842 19240698
    ∷ row "F03451" "Gyöngytyúk utca" 47491456 19243393
    ∷ row "F03452" "Gyöngytyúk utca" 47491016 19242967
    ∷ row "F03453" "Gyöngytyúk utca" 47490548 19243456
    ∷ row "F03454" "Rétsár utca" 47485457 19243291
    ∷ row "F03455" "Rétsár utca" 47485691 19243518
    ∷ row "F03456" "Liszt Ferenc utca" 47487308 19249389
    ∷ row "F03457" "Rákosliget vasútállomás" 47485035 19258549
    ∷ row "F03458" "IV. utca" 47487282 19259049
    ∷ row "F03459" "Rákosliget vasútállomás" 47486500 19258700
    ∷ row "F03460" "Harsona utca" 47490687 19270701
    ∷ row "F03461" "Rákoscsaba-Újtelep vasútállomás" 47488118 19273595
    ∷ row "F03462" "Bártfai utca / Diadal utca" 47492805 19268439
    ∷ row "F03463" "Bártfai utca / Diadal utca" 47493235 19269317
    ∷ row "F03464" "Ároktő út" 47491445 19264758
    ∷ row "F03465" "Ároktő út" 47491534 19265209
    ∷ row "F03466" "XVIII. utca" 47492192 19259506
    ∷ row "F03468" "XVIII. utca" 47491956 19260752
    ∷ row "F03469" "XVIII. utca" 47492532 19260383
    ∷ row "F03471" "Tarack utca" 47492647 19251572
    ∷ row "F03472" "Tarack utca" 47492611 19251851
    ∷ row "F03473" "Akácvirág utca (egészségház)" 47478132 19255934
    ∷ row "F03474" "Szárny utca" 47480939 19265312
    ∷ row "F03475" "Szárny utca" 47480554 19264448
    ∷ row "F03476" "Szabadság sugárút" 47482972 19274223
    ∷ row "F03477" "Szabadság sugárút" 47482578 19273226
    ∷ row "F03478" "Lemberg utca" 47483513 19278352
    ∷ row "F03479" "Péceli út" 47483963 19278168
    ∷ row "F03480" "Lemberg utca" 47484232 19278581
    ∷ row "F03481" "Lemberg utca" 47484536 19279192
    ∷ row "F03482" "Csaba vezér tér" 47486744 19286341
    ∷ row "F03483" "Csaba vezér tér" 47486861 19286248
    ∷ row "F03484" "Csaba vezér tér" 47486292 19287334
    ∷ row "F03485" "Csaba vezér tér" 47487847 19287765
    ∷ row "F03486" "Lemberg utca" 47480576 19280714
    ∷ row "F03487" "Csabagyöngye utca" 47480649 19280277
    ∷ row "F03488" "Alsódabas utca" 47483472 19289603
    ∷ row "F03489" "Alsódabas utca" 47482969 19289322
    ∷ row "F03490" "Alsódabas utca" 47482715 19290064
    ∷ row "F03491" "Óvónő utca" 47485286 19281929
    ∷ row "F03492" "Óvónő utca" 47485600 19282567
    ∷ row "F03493" "Regélő utca" 47477458 19292508
    ∷ row "F03494" "Regélő utca" 47477178 19292758
    ∷ row "F03495" "Nagyszentmiklósi út" 47472074 19294804
    ∷ row "F03496" "Nagyszentmiklósi út" 47471777 19294975
    ∷ row "F03498" "Kucorgó tér" 47469017 19294153
    ∷ row "F03499" "Kucorgó tér" 47469134 19294512
    ∷ row "F03500" "Nyomdász utca" 47465497 19308356
    ∷ row "F03501" "Nyomdász utca" 47465099 19309083
    ∷ row "F03502" "Pesti út" 47464147 19312607
    ∷ row "F03503" "Sáránd utca" 47464039 19312513
    ∷ row "F03504" "Rákoskert sugárút" 47461105 19313480
    ∷ row "F03505" "Sáránd utca" 47461284 19313561
    ∷ row "F03506" "Schell Gyuláné tér" 47459624 19299760
    ∷ row "F03507" "Schell Gyuláné tér" 47459614 19300555
    ∷ row "F03508" "Vecsey Ferenc utca" 47470547 19289664
    ∷ row "F03509" "Vecsey Ferenc utca" 47470502 19289425
    ∷ row "F03510" "Tápióbicske utca" 47472360 19278304
    ∷ row "F03511" "Tápióbicske utca" 47471981 19279098
    ∷ row "F03512" "Oroszvár utca" 47474461 19270897
    ∷ row "F03513" "Oroszvár utca" 47474508 19270141
    ∷ row "F03514" "Mezőtárkány utca" 47477037 19264182
    ∷ row "F03515" "Mezőtárkány utca" 47477192 19263453
    ∷ row "F03516" "Széchenyi utca" 47473459 19253634
    ∷ row "F03517" "Széchenyi utca" 47473818 19254020
    ∷ row "F03518" "Szabadság utca" 47467379 19248464
    ∷ row "F03519" "Szabadság utca" 47467515 19247948
    ∷ row "F03520" "Kerülő utca" 47463658 19247058
    ∷ row "F03521" "Rákoshegy, Ferihegyi út" 47460538 19246290
    ∷ row "F03522" "Baross utca" 47462996 19239562
    ∷ row "F03523" "Melczer utca / Baross utca" 47462925 19238991
    ∷ row "F03524" "Melczer utca / Baross utca" 47463329 19239536
    ∷ row "F03525" "Rákoshegy vasútállomás" 47467540 19243703
    ∷ row "F03526" "Rákoshegy vasútállomás" 47468017 19243665
    ∷ row "F03528" "Rákoshegy vasútállomás" 47468302 19245138
    ∷ row "F03529" "Lőrinci út" 47469943 19237226
    ∷ row "F03530" "Lőrinci út" 47469527 19238405
    ∷ row "F03531" "Lőrinci út" 47469467 19237012
    ∷ row "F03532" "Lőrinci út" 47469683 19236813
    ∷ row "F03533" "Bánya part" 47471046 19239047
    ∷ row "F03534" "Bánya part" 47471585 19239712
    ∷ row "F03535" "Bulyovszky utca" 47473794 19241763
    ∷ row "F03536" "Bulyovszky utca" 47474431 19242548
    ∷ row "F03537" "Árpád fejedelem utca" 47476775 19244719
    ∷ row "F03538" "Árpád fejedelem utca" 47476003 19244106
    ∷ row "F03540" "Bakancsos utca" 47481235 19244961
    ∷ row "F03541" "Bakancsos utca" 47482272 19243864
    ∷ row "F03542" "Bakancsos utca" 47482201 19243200
    ∷ row "F03544" "Kis utca" 47483315 19238918
    ∷ row "F03545" "Kis utca" 47483226 19238334
    ∷ row "F03546" "Borsó utca" 47484232 19233694
    ∷ row "F03547" "Borsó utca" 47483971 19233839
    ∷ row "F03548" "509. utca" 47485100 19224487
    ∷ row "F03549" "509. utca" 47484739 19225655
    ∷ row "F03550" "Pesti út" 47483931 19230747
    ∷ row "F03551" "501. utca" 47482212 19219238
    ∷ row "F03552" "Akadémiaújtelep, 525. tér" 47480709 19219830
    ∷ row "F03553" "513. utca" 47480427 19227923
    ∷ row "F03554" "Uszoda" 47479302 19233982
    ∷ row "F03556" "Szürkebegy utca" 47475445 19238930
    ∷ row "F03557" "Rákoskeresztúr, Aranylúd utca" 47471763 19235335
    ∷ row "F03558" "Barátka utca" 47473344 19230883
    ∷ row "F03559" "Vadkacsa utca" 47477055 19227527
    ∷ row "F03561" "Melczer utca" 47465478 19234053
    ∷ row "F03562" "Bocskai István utca" 47456181 19232336
    ∷ row "F03563" "Bocskai István utca" 47456728 19233014
    ∷ row "F03564" "Orgoványi utca" 47452885 19229036
    ∷ row "F03565" "Orgoványi utca" 47453433 19229595
    ∷ row "F03566" "Óvónő utca" 47481585 19284287
    ∷ row "F03567" "Óvónő utca" 47481763 19285217
    ∷ row "F03568" "Nyomdok utca" 47466726 19305470
    ∷ row "F03569" "Nyomdok utca" 47466573 19305562
    ∷ row "F03570" "Erzsébet körút" 47460256 19306991
    ∷ row "F03571" "Erzsébet körút" 47460131 19306526
    ∷ row "F03572" "Ananász utca / Ároktő út" 47495698 19260688
    ∷ row "F03573" "Ananász utca / Ároktő út" 47495976 19261273
    ∷ row "F03574" "Olcsva utca" 47468084 19301630
    ∷ row "F03575" "Olcsva utca" 47467749 19302358
    ∷ row "F03576" "Bártfai utca / Ananász utca" 47497247 19264118
    ∷ row "F03577" "Bártfai utca / Ananász utca" 47497436 19264344
    ∷ row "F03578" "Almásháza utca" 47498947 19269208
    ∷ row "F03579" "Almásháza utca" 47498784 19269791
    ∷ row "F03580" "Jászivány utca" 47495861 19274398
    ∷ row "F03581" "Jászágó utca" 47496591 19273432
    ∷ row "F03582" "Gőzös utca" 47494621 19287066
    ∷ row "F03583" "Gőzös utca" 47494630 19286947
    ∷ row "F03584" "Rákoscsaba-Újtelep, Tóalmás utca" 47499389 19286636
    ∷ row "F03585" "Rózsaszál utca" 47463578 19297577
    ∷ row "F03586" "Rózsaszál utca" 47463902 19297339
    ∷ row "F03587" "Bulyovszky utca / Ferihegyi út" 47471258 19251994
    ∷ row "F03588" "Bulyovszky utca / Ferihegyi út" 47470836 19251820
    ∷ row "F03589" "Ady Endre utca" 47465717 19241760
    ∷ row "F03590" "Ady Endre utca" 47466193 19242372
    ∷ row "F03591" "Vörösmarty utca" 47461721 19237939
    ∷ []
