-- ===== src/StopList/Part25.antt =====
-- Lines 3771 to 3920 of bkk_uds/bkk_stop_list.h.
use mathlib.Core.List.{List, [], ◌∷◌}
use bkk_api.StopList.Row.{BkkStop, row}

unfoldable pub stops_25 : List BkkStop
stops_25 =
    row "F02426" "Nárcisz utca" 47496280 19010747
    ∷ row "F02427" "Tarpatak utca" 47509544 18997521
    ∷ row "F02428" "Tarpatak utca" 47509400 18997096
    ∷ row "F02429" "Vöröskő utca" 47496929 19007367
    ∷ row "F02430" "Vöröskő utca" 47496668 19007341
    ∷ row "F02431" "Szendrő utca" 47495390 19004237
    ∷ row "F02433" "Szendrő utca" 47495255 19004316
    ∷ row "F02434" "Pagony utca" 47494931 19003096
    ∷ row "F02435" "Sólyom utca" 47496969 19000089
    ∷ row "F02436" "Sólyom utca" 47497142 18999957
    ∷ row "F02437" "Tamási Áron utca / Thomán István utca" 47496950 18998058
    ∷ row "F02438" "Tamási Áron utca / Thomán István utca" 47496844 18998184
    ∷ row "F02439" "Thomán István utca" 47494695 18998517
    ∷ row "F02440" "Városkút" 47500114 18989766
    ∷ row "F02441" "Városkút" 47500321 18989659
    ∷ row "F02442" "Svábhegy" 47497524 18989742
    ∷ row "F02443" "Ordas út" 47498490 18980570
    ∷ row "F02444" "Ordas út" 47498230 18981367
    ∷ row "F02445" "Őzike köz" 47499540 18976428
    ∷ row "F02446" "Őzike köz" 47499423 18977225
    ∷ row "F02447" "Fülemile út" 47499645 18972592
    ∷ row "F02448" "Fülemile út" 47499547 18973389
    ∷ row "F02449" "Normafa, Gyermekvasút" 47500391 18970653
    ∷ row "F02450" "Normafa, Gyermekvasút" 47500157 18970840
    ∷ row "F02451" "Csillagvizsgáló" 47500315 18964734
    ∷ row "F02452" "Csillagvizsgáló" 47500135 18964748
    ∷ row "F02453" "Csillebérc, Gyermekvasút" 47497805 18963942
    ∷ row "F02454" "Csillebérc, Gyermekvasút" 47497724 18964075
    ∷ row "F02455" "Sötétvágás utca" 47494864 18964663
    ∷ row "F02456" "Sötétvágás utca" 47495377 18964569
    ∷ row "F02458" "Svábhegy" 47498090 18989662
    ∷ row "F02459" "Svábhegy" 47497721 18989397
    ∷ row "F02460" "Széll Kálmán tér M" 47506863 19024178
    ∷ row "F02461" "Széll Kálmán tér M" 47506611 19024390
    ∷ row "F02462" "Széll Kálmán tér M" 47506441 19024775
    ∷ row "F02464" "Széll Kálmán tér M" 47507403 19024974
    ∷ row "F02465" "Széll Kálmán tér M" 47507421 19024722
    ∷ row "F02466" "Széll Kálmán tér M" 47507376 19025598
    ∷ row "F02469" "Széll Kálmán tér M" 47506520 19023908
    ∷ row "F02470" "Széll Kálmán tér M" 47506404 19024311
    ∷ row "F02473" "Széll Kálmán tér M" 47506647 19023912
    ∷ row "F02476" "Széll Kálmán tér M" 47507384 19024492
    ∷ row "F02477" "Széll Kálmán tér M" 47507258 19025182
    ∷ row "F02480" "Széll Kálmán tér" 47506818 19024895
    ∷ row "F02481" "Széll Kálmán tér" 47507533 19026097
    ∷ row "F02482" "Rendelőintézet" 47511139 19005670
    ∷ row "F02483" "Rendelőintézet" 47510923 19005870
    ∷ row "F02484" "Hunyad köz" 47511406 18981735
    ∷ row "F02485" "Hunyad köz" 47511262 18981523
    ∷ row "F02486" "Hunyad lejtő" 47510838 18978696
    ∷ row "F02487" "Cinege út" 47510811 18979147
    ∷ row "F02488" "Csemegi utca" 47501645 19018128
    ∷ row "F02492" "Hajós Alfréd uszoda" 47519853 19044234
    ∷ row "F02493" "Hajós Alfréd uszoda" 47519862 19044101
    ∷ row "F02494" "Palatinus fürdő" 47528074 19047606
    ∷ row "F02495" "Palatinus fürdő" 47527732 19047247
    ∷ row "F02496" "Szabadtéri Színpad" 47530844 19048934
    ∷ row "F02497" "Szabadtéri Színpad" 47529990 19048349
    ∷ row "F02498" "Szállodák (Hotels)" 47533317 19050873
    ∷ row "F02499" "Szállodák (Hotels)" 47533254 19050660
    ∷ row "F02500" "Zenélőkút" 47535692 19052506
    ∷ row "F02501" "Zenélőkút" 47535944 19052374
    ∷ row "F02502" "Margitsziget / Árpád híd" 47537185 19054392
    ∷ row "F02503" "Margitsziget / Árpád híd" 47537679 19053728
    ∷ row "F02504" "Tisza utca" 47524161 19058109
    ∷ row "F02505" "Parkmozi köz" 47522785 19045282
    ∷ row "F02506" "Parkmozi köz" 47522623 19045096
    ∷ row "F02507" "Viza utca" 47530106 19057645
    ∷ row "F02508" "Viza utca" 47530718 19057765
    ∷ row "F02509" "Dráva utca" 47525897 19057817
    ∷ row "F02510" "Dráva utca" 47525726 19057844
    ∷ row "F02511" "Jászai Mari tér" 47513890 19049372
    ∷ row "F02512" "Szent István park" 47518335 19051456
    ∷ row "F02513" "Szent István park" 47517740 19052625
    ∷ row "F02514" "Hegedűs Gyula utca" 47517793 19054762
    ∷ row "F02515" "Hegedűs Gyula utca" 47517164 19054815
    ∷ row "F02516" "Hegedűs Gyula utca" 47517883 19057363
    ∷ row "F02517" "Hegedűs Gyula utca" 47518227 19055824
    ∷ row "F02519" "Gogol utca" 47520132 19057590
    ∷ row "F02521" "Ipoly utca" 47520564 19054072
    ∷ row "F02522" "Ipoly utca" 47519394 19053605
    ∷ row "F02523" "Felka utca" 47515644 19053195
    ∷ row "F02524" "Felka utca" 47514538 19054124
    ∷ row "F02525" "Népfürdő utca / Árpád híd" 47536348 19059466
    ∷ row "F02526" "Népfürdő utca / Árpád híd" 47535889 19059638
    ∷ row "F02527" "Népfürdő utca / Árpád híd" 47536322 19058867
    ∷ row "F02528" "Népfürdő utca / Árpád híd" 47536115 19059531
    ∷ row "F02532" "Kámfor utca" 47552415 19084459
    ∷ row "F02533" "Szekszárdi utca" 47552550 19083835
    ∷ row "F02534" "Gyöngyösi utca M" 47549342 19074188
    ∷ row "F02535" "Gyöngyösi utca M" 47549306 19073723
    ∷ row "F02536" "Gyöngyösi utca M" 47548964 19073125
    ∷ row "F02537" "Gyöngyösi utca M" 47548793 19073523
    ∷ row "F02538" "Gyöngyösi utca" 47547613 19080524
    ∷ row "F02539" "Gyöngyösi utca" 47548396 19081334
    ∷ row "F02540" "Cziffra György park" 47548711 19077788
    ∷ row "F02541" "Cziffra György park" 47548324 19079288
    ∷ row "F02542" "Gyöngyösi utca" 47547062 19089251
    ∷ row "F02543" "Gyöngyösi utca" 47546207 19090100
    ∷ row "F02544" "Gyöngyösi utca" 47546217 19089038
    ∷ row "F02545" "Gyöngyösi utca" 47545902 19088745
    ∷ row "F02546" "Gyöngyösi utca" 47546693 19089423
    ∷ row "F02547" "Reitter Ferenc utca" 47545441 19095333
    ∷ row "F02548" "Reitter Ferenc utca" 47545477 19095108
    ∷ row "F02549" "Futár utca" 47538230 19089988
    ∷ row "F02550" "Futár utca" 47537978 19089589
    ∷ row "F02551" "Fiastyúk utca" 47540264 19084783
    ∷ row "F02552" "Fiastyúk utca" 47540111 19084889
    ∷ row "F02553" "Fiastyúk utca" 47540159 19085595
    ∷ row "F02554" "Fiastyúk utca" 47540537 19085874
    ∷ row "F02555" "Fiastyúk utca" 47540426 19085620
    ∷ row "F02556" "Fiastyúk utca" 47540328 19085899
    ∷ row "F02557" "Násznagy utca" 47542783 19082128
    ∷ row "F02558" "Násznagy utca" 47543107 19081942
    ∷ row "F02559" "József Attila tér" 47547406 19083751
    ∷ row "F02560" "József Attila tér" 47547118 19084057
    ∷ row "F02561" "Fiastyúk utca" 47543576 19078701
    ∷ row "F02562" "Fiastyúk utca" 47544960 19079725
    ∷ row "F02563" "Csavargyár utca" 47545889 19072008
    ∷ row "F02564" "Csavargyár utca" 47546095 19072459
    ∷ row "F02565" "Dagály fürdő" 47539882 19062375
    ∷ row "F02566" "Cserhalom utca" 47541932 19066613
    ∷ row "F02567" "Népfürdő utca / Árpád híd" 47536878 19060542
    ∷ row "F02568" "Népfürdő utca / Árpád híd" 47536887 19060834
    ∷ row "F02569" "Népfürdő utcai sporttelep" 47533641 19059107
    ∷ row "F02570" "Népfürdő utcai sporttelep" 47533605 19059359
    ∷ row "F02571" "Karikás Frigyes utca" 47537112 19066054
    ∷ row "F02572" "Lomb utca" 47535240 19069958
    ∷ row "F02573" "Vág utca" 47523891 19055785
    ∷ row "F02574" "Vág utca" 47523954 19056011
    ∷ row "F02575" "Pap Károly utca" 47533557 19073742
    ∷ row "F02576" "Pap Károly utca" 47533737 19075415
    ∷ row "F02577" "Röppentyű utca" 47534277 19074632
    ∷ row "F02578" "Göncz Árpád városközpont M" 47532255 19067313
    ∷ row "F02579" "Göncz Árpád városközpont M" 47532515 19067340
    ∷ row "F02580" "Göncz Árpád városközpont M" 47532335 19067553
    ∷ row "F02581" "Göncz Árpád városközpont M" 47532192 19067832
    ∷ row "F02582" "Göncz Árpád városközpont M" 47531886 19068335
    ∷ row "F02583" "Hajdú utca" 47531039 19075560
    ∷ row "F02584" "Béke utca" 47532665 19080700
    ∷ row "F02585" "Béke tér" 47529376 19080195
    ∷ row "F02586" "Béke tér" 47529203 19079941
    ∷ row "F02587" "Béke tér" 47529745 19080488
    ∷ row "F02588" "Béke tér" 47530768 19080845
    ∷ row "F02589" "Béke tér" 47529688 19081203
    ∷ row "F02590" "Béke tér" 47529373 19081416
    ∷ row "F02591" "Lehel utca / Róbert Károly körút" 47526244 19078506
    ∷ row "F02592" "Lehel utca / Róbert Károly körút" 47526433 19078771
    ∷ row "F02593" "Lehel utca / Róbert Károly körút" 47525833 19078188
    ∷ row "F02594" "Lehel utca / Róbert Károly körút" 47526137 19077337
    ∷ []
