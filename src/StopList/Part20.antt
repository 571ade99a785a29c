-- ===== src/StopList/Part20.antt =====
-- Lines 3021 to 3170 of bkk_uds/bkk_stop_list.h.
use mathlib.Core.List.{List, [], ◌∷◌}
use bkk_api.StopList.Row.{BkkStop, row}

unfoldable pub stops_20 : List BkkStop
stops_20 =
    row "F01577" "Richter Gedeon utca" 47473762 19135266
    ∷ row "F01578" "Richter Gedeon utca" 47473663 19135133
    ∷ row "F01579" "Gyömrői út" 47471598 19141855
    ∷ row "F01580" "Kada utca" 47471741 19142227
    ∷ row "F01581" "Diósgyőri utca" 47470400 19143856
    ∷ row "F01582" "Diósgyőri utca" 47470562 19143843
    ∷ row "F01583" "Felüljáró" 47465158 19152296
    ∷ row "F01584" "Felüljáró (Gyömrői út)" 47465382 19152827
    ∷ row "F01585" "Újhegyi út" 47465396 19157601
    ∷ row "F01586" "Újhegyi út" 47464675 19159085
    ∷ row "F01587" "Hangár utca" 47462465 19165951
    ∷ row "F01588" "Újhegyi út, Sportliget" 47468083 19168683
    ∷ row "F01589" "Újhegyi út, Sportliget" 47468305 19169341
    ∷ row "F01590" "Dolomit utca" 47469531 19169177
    ∷ row "F01591" "Maglódi út" 47470264 19173330
    ∷ row "F01592" "Maglódi út" 47470560 19174180
    ∷ row "F01593" "Új köztemető" 47473120 19177277
    ∷ row "F01594" "Új köztemető" 47473299 19177383
    ∷ row "F01595" "Új köztemető" 47473416 19178127
    ∷ row "F01596" "Új köztemető" 47473371 19177835
    ∷ row "F01597" "Új köztemető" 47473003 19177104
    ∷ row "F01600" "Gránátos utca" 47481187 19177509
    ∷ row "F01601" "Gránátos utca" 47481736 19177696
    ∷ row "F01602" "Kozma utca" 47487509 19178599
    ∷ row "F01603" "Kozma utca" 47486753 19179234
    ∷ row "F01604" "Athenaeum Nyomda" 47487030 19180522
    ∷ row "F01605" "Kossuth Nyomda" 47486626 19187221
    ∷ row "F01606" "Kossuth Nyomda" 47486537 19186651
    ∷ row "F01608" "Tarkarét utca" 47485892 19191956
    ∷ row "F01609" "Túzok utca" 47487051 19192716
    ∷ row "F01610" "Túzok utca" 47486916 19193246
    ∷ row "F01611" "Keresztúri út 102." 47490929 19168549
    ∷ row "F01612" "Keresztúri út 102." 47490712 19169225
    ∷ row "F01613" "Rákos vasútállomás" 47488296 19174156
    ∷ row "F01614" "Rákos vasútállomás" 47488234 19173558
    ∷ row "F01615" "Maglódi út" 47490461 19149200
    ∷ row "F01616" "Maglódi út" 47490299 19149717
    ∷ row "F01617" "Jászberényi út / Maglódi út" 47490048 19149080
    ∷ row "F01618" "Jászberényi út / Maglódi út" 47490253 19148647
    ∷ row "F01619" "Sörgyár" 47491733 19144770
    ∷ row "F01620" "Sörgyár" 47491941 19144346
    ∷ row "F01621" "Sörgyár" 47491229 19146057
    ∷ row "F01622" "Sörgyár" 47492084 19144598
    ∷ row "F01623" "Élessarok" 47491071 19138019
    ∷ row "F01624" "Élessarok" 47491529 19138750
    ∷ row "F01625" "Élessarok" 47491828 19138287
    ∷ row "F01626" "Élessarok" 47491801 19138666
    ∷ row "F01627" "Élessarok" 47491181 19137962
    ∷ row "F01628" "Élessarok" 47491917 19140139
    ∷ row "F01629" "Szent László Gimnázium" 47489671 19136805
    ∷ row "F01630" "Szent László Gimnázium" 47488852 19137427
    ∷ row "F01631" "Szent László Gimnázium" 47488384 19137877
    ∷ row "F01635" "Kőbánya alsó vasútállomás" 47483391 19128037
    ∷ row "F01636" "Kőbánya alsó vasútállomás" 47483652 19127839
    ∷ row "F01637" "Hízlaló tér" 47472290 19124243
    ∷ row "F01638" "Hízlaló tér" 47472511 19123644
    ∷ row "F01639" "Liget tér" 47481672 19128791
    ∷ row "F01640" "Vaspálya utca" 47481780 19128460
    ∷ row "F01641" "Liget tér" 47482795 19130358
    ∷ row "F01642" "Liget tér" 47483074 19131221
    ∷ row "F01644" "Kápolna utca" 47482004 19130543
    ∷ row "F01645" "Kőbánya alsó vasútállomás" 47482479 19128504
    ∷ row "F01646" "Kőbánya alsó vasútállomás" 47482370 19129419
    ∷ row "F01647" "Kápolna utca" 47482256 19130424
    ∷ row "F01648" "Szent László tér" 47485277 19131424
    ∷ row "F01649" "Szent László tér" 47485022 19131560
    ∷ row "F01650" "Szent László tér" 47485319 19131733
    ∷ row "F01651" "Szent László tér" 47484521 19131635
    ∷ row "F01652" "Szent László tér" 47485907 19130668
    ∷ row "F01653" "Szent László tér" 47485925 19131093
    ∷ row "F01655" "Kápolna utca" 47481605 19135159
    ∷ row "F01658" "Gyula utca" 47461508 19169172
    ∷ row "F01659" "Ihász utca" 47479581 19135355
    ∷ row "F01660" "Ihász utca" 47479347 19135501
    ∷ row "F01661" "Kápolna tér" 47481424 19135663
    ∷ row "F01662" "Kápolna tér" 47481127 19136631
    ∷ row "F01664" "Kőér utca" 47477176 19139013
    ∷ row "F01665" "Kőér utca" 47477627 19138045
    ∷ row "F01666" "Óhegy park" 47480143 19140716
    ∷ row "F01667" "Óhegy park" 47479441 19141683
    ∷ row "F01668" "Ihász utca" 47485907 19142079
    ∷ row "F01669" "Ihász utca" 47484287 19143855
    ∷ row "F01670" "Csősztorony" 47483710 19144981
    ∷ row "F01671" "Csősztorony" 47482972 19145882
    ∷ row "F01672" "Mádi köz" 47483671 19149068
    ∷ row "F01673" "Gitár utca" 47487031 19153055
    ∷ row "F01674" "Gitár utca" 47487085 19152889
    ∷ row "F01675" "Gitár utca" 47487725 19151729
    ∷ row "F01676" "Kada utca / Maglódi út" 47482897 19158401
    ∷ row "F01677" "Kada utca / Maglódi út" 47482529 19158114
    ∷ row "F01678" "Kada utca / Maglódi út" 47482305 19157968
    ∷ row "F01679" "Kada utca / Maglódi út" 47482709 19158738
    ∷ row "F01680" "Kada utca / Maglódi út" 47482367 19158897
    ∷ row "F01681" "Kada utca / Mádi utca" 47479359 19153464
    ∷ row "F01682" "Kada utca / Mádi utca" 47479529 19153902
    ∷ row "F01683" "Kada utca / Mádi utca" 47479367 19154831
    ∷ row "F01684" "Kada utca / Harmat utca" 47478038 19151591
    ∷ row "F01685" "Kada utca / Harmat utca" 47477831 19152307
    ∷ row "F01686" "Márga utca" 47477820 19144082
    ∷ row "F01687" "Márga utca" 47477683 19144512
    ∷ row "F01688" "Kemence utca" 47475865 19148071
    ∷ row "F01689" "Kemence utca" 47475757 19147607
    ∷ row "F01690" "Kada utca" 47473898 19144420
    ∷ row "F01691" "Gergely utca" 47473386 19144458
    ∷ row "F01692" "Noszlopy utca" 47471781 19148448
    ∷ row "F01693" "Gergely utca (Sibrik Miklós út)" 47468581 19155923
    ∷ row "F01694" "Gergely utca (Sibrik Miklós út)" 47467854 19154808
    ∷ row "F01695" "Mélytó utca" 47467837 19163416
    ∷ row "F01696" "Mélytó utca" 47468555 19164824
    ∷ row "F01697" "Szövőszék utca" 47471843 19159273
    ∷ row "F01698" "Szövőszék utca" 47472265 19159897
    ∷ row "F01699" "Sibrik Miklós út" 47473560 19160391
    ∷ row "F01700" "Sibrik Miklós út" 47472668 19162060
    ∷ row "F01701" "Lavotta utca" 47475218 19157091
    ∷ row "F01703" "Lavotta utca" 47476907 19158952
    ∷ row "F01704" "Mádi utca" 47473503 19163972
    ∷ row "F01705" "Mádi utca" 47475069 19162039
    ∷ row "F01706" "Venyige utca" 47477675 19165189
    ∷ row "F01707" "Venyige utca" 47477458 19165653
    ∷ row "F01708" "Venyige utca" 47477404 19165878
    ∷ row "F01709" "Venyige utca" 47477251 19165944
    ∷ row "F01710" "Sírkert út" 47474486 19169334
    ∷ row "F01711" "Sírkert út" 47473720 19171309
    ∷ row "F01712" "Sírkert út" 47473701 19171773
    ∷ row "F01713" "Sírkert út" 47473828 19171309
    ∷ row "F01714" "Tavas utca" 47469975 19165304
    ∷ row "F01715" "Legényrózsa utca" 47486386 19199309
    ∷ row "F01716" "Legényrózsa utca" 47486197 19199613
    ∷ row "F01717" "Határmalom utca" 47488923 19218437
    ∷ row "F01718" "Határmalom utca" 47488875 19220507
    ∷ row "F01719" "501. utca" 47485734 19215879
    ∷ row "F01720" "501. utca" 47485004 19216899
    ∷ row "F01721" "Jászberényi út" 47484779 19217190
    ∷ row "F01722" "501. utca" 47485534 19217391
    ∷ row "F01723" "Gyömrői út 156." 47460265 19170482
    ∷ row "F01724" "III. kapu" 47491422 19128050
    ∷ row "F01725" "Kistorony park" 47486055 19124366
    ∷ row "F01726" "Kistorony park" 47486640 19124062
    ∷ row "F01727" "Kőbánya felső vasútállomás" 47490942 19133158
    ∷ row "F01728" "Kőbánya felső vasútállomás" 47490825 19132932
    ∷ row "F01729" "Halom utca" 47490163 19128618
    ∷ row "F01730" "Halom utca" 47490046 19128353
    ∷ row "F01731" "Eiffel Műhelyház" 47485009 19113882
    ∷ row "F01732" "Eiffel Műhelyház" 47485136 19113100
    ∷ row "F01733" "Eiffel Műhelyház" 47485136 19112914
    ∷ row "F01734" "Eiffel Műhelyház" 47484704 19114015
    ∷ row "F01735" "Őrnagy utca" 47500696 19112190
    ∷ row "F01736" "Őrnagy utca" 47500498 19112800
    ∷ row "F01737" "Várna utca" 47501747 19115376
    ∷ row "F01738" "Várna utca" 47501684 19115642
    ∷ []
