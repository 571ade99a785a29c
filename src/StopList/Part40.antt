-- ===== src/StopList/Part40.antt =====
-- Lines 6021 to 6157 of bkk_uds/bkk_stop_list.h.
use mathlib.Core.List.{List, [], ◌∷◌}
use bkk_api.StopList.Row.{BkkStop, row}

unfoldable pub stops_40 : List BkkStop
stops_40 =
    row "LM3KKG" "Kőbánya-Kispest [G]" 47463275 19148857
    ∷ row "LM3KKV1" "Kőbánya-Kispest (1-2)" 47464135 19149894
    ∷ row "LM3KKV2" "Kőbánya-Kispest (4-5)" 47463953 19149794
    ∷ row "LM3KKV3" "Kőbánya-Kispest (8-11)" 47463533 19149672
    ∷ row "LM3KV1" "Kálvin tér" 47489693 19061707
    ∷ row "LM3LE1" "Lehel tér" 47517367 19060398
    ∷ row "LM3LE2" "Lehel tér" 47519061 19061079
    ∷ row "LM3LE5" "Lehel tér [lift » M3]" 47517452 19059981
    ∷ row "LM3LEA" "Lehel tér [A]" 47519226 19061201
    ∷ row "LM3LEB" "Lehel tér [B]" 47518978 19061075
    ∷ row "LM3LEC" "Lehel tér [C]" 47519056 19060726
    ∷ row "LM3LED" "Lehel tér [D]" 47519496 19060912
    ∷ row "LM3LEE" "Lehel tér [E]" 47517681 19060595
    ∷ row "LM3LEF" "Lehel tér [F]" 47517432 19060648
    ∷ row "LM3LEG" "Lehel tér [G]" 47517127 19060339
    ∷ row "LM3LEH" "Lehel tér [H]" 47517146 19059893
    ∷ row "LM3LEI" "Lehel tér [I]" 47517584 19060103
    ∷ row "LM3NL1" "Népliget [lift » M3 Kőbánya-Kispest]" 47475390 19099096
    ∷ row "LM3NL2" "Népliget [lift » M3 Újpest-Központ]" 47475633 19099269
    ∷ row "LM3NLA" "Népliget [A]" 47475880 19098290
    ∷ row "LM3NLB" "Népliget [B]" 47475930 19098520
    ∷ row "LM3NLC" "Népliget [C]" 47475840 19098880
    ∷ row "LM3NLD" "Népliget [D]" 47475740 19099260
    ∷ row "LM3NLE" "Népliget [E]" 47475160 19098940
    ∷ row "LM3NLF" "Népliget [F]" 47475120 19098630
    ∷ row "LM3NLG" "Népliget [G]" 47475330 19097960
    ∷ row "LM3NLH" "Népliget [H]" 47475580 19097890
    ∷ row "LM3NLV" "Népliget (Volánbusz)" 47475089 19098900
    ∷ row "LM3NT1" "Nagyvárad tér" 47478943 19089796
    ∷ row "LM3NT2" "Nagyvárad tér [lift]" 47479442 19089481
    ∷ row "LM3NT3" "Nagyvárad tér [lift]" 47478731 19089547
    ∷ row "LM3NTA" "Nagyvárad tér [A]" 47479375 19089761
    ∷ row "LM3NTB" "Nagyvárad tér [B]" 47479317 19089892
    ∷ row "LM3NTC" "Nagyvárad tér [C]" 47479166 19089996
    ∷ row "LM3NTD" "Nagyvárad tér [D]" 47478719 19089650
    ∷ row "LM3NTE" "Nagyvárad tér [E]" 47479052 19088644
    ∷ row "LM3NTF" "Nagyvárad tér [F]" 47479487 19089363
    ∷ row "LM3NY1" "Nyugati pályaudvar" 47510545 19055967
    ∷ row "LM3NY2" "Nyugati pályaudvar" 47511807 19056937
    ∷ row "LM3NY3" "Nyugati pályaudvar [lift » M3]" 47510040 19055784
    ∷ row "LM3NYA" "Nyugati pályaudvar [A]" 47512240 19056584
    ∷ row "LM3NYB" "Nyugati pályaudvar [B]" 47512118 19057114
    ∷ row "LM3NYC" "Nyugati pályaudvar [C]" 47511509 19056730
    ∷ row "LM3NYD" "Nyugati pályaudvar [D]" 47511026 19057148
    ∷ row "LM3NYE" "Nyugati pályaudvar [E]" 47510447 19056426
    ∷ row "LM3NYF" "Nyugati pályaudvar [F]" 47510703 19056257
    ∷ row "LM3NYG" "Nyugati pályaudvar [G]" 47510326 19056196
    ∷ row "LM3NYH" "Nyugati pályaudvar [H]" 47510233 19056103
    ∷ row "LM3NYI" "Nyugati pályaudvar [I]" 47509870 19056404
    ∷ row "LM3NYJ" "Nyugati pályaudvar [J]" 47510011 19055055
    ∷ row "LM3NYK" "Nyugati pályaudvar [K]" 47510513 19055031
    ∷ row "LM3NYL" "Nyugati pályaudvar [L]" 47510792 19055004
    ∷ row "LM3NYM" "Nyugati pályaudvar [M]" 47510917 19055716
    ∷ row "LM3PU1" "Pöttyös utca [lift » M3 Kőbánya-Kispest]" 47468257 19117488
    ∷ row "LM3PU2" "Pöttyös utca [lift » M3 Újpest-Központ]" 47468455 19117648
    ∷ row "LM3UK1" "Újpest-Központ [lift » M3 Újpest-Központ]" 47560187 19090195
    ∷ row "LM3UK2" "Újpest-Központ [lift » M3 Kőbánya-Kispest]" 47560457 19091046
    ∷ row "LM3UKA" "Újpest-Központ [A]" 47560665 19089860
    ∷ row "LM3UKB" "Újpest-Központ [B]" 47560717 19090148
    ∷ row "LM3UKC" "Újpest-Központ [C]" 47560551 19090293
    ∷ row "LM3UKD" "Újpest-Központ [D]" 47560209 19089999
    ∷ row "LM3UKE" "Újpest-Központ [E]" 47560198 19089713
    ∷ row "LM3UKF" "Újpest-Központ [F]" 47560212 19089518
    ∷ row "LM3UKG" "Újpest-Központ [G]" 47560344 19089351
    ∷ row "LM3UKH" "Újpest-Központ [H]" 47560543 19089413
    ∷ row "LM3UKI" "Újpest-Központ [I]" 47560639 19089645
    ∷ row "LM3UV1" "Újpest-Városkapu [lift » M3 Kőbánya-Kispest]" 47559136 19079317
    ∷ row "LM3UV2" "Újpest-Városkapu [lift » M3 Újpest-Központű]" 47558910 19079527
    ∷ row "LM4BP1" "Bikás park" 47465173 19033432
    ∷ row "LM4BP2" "Bikás park (Vahot utca)" 47464837 19033335
    ∷ row "LM4FT1" "Fővám tér" 47486650 19057060
    ∷ row "LM4FT2" "Fővám tér [lift]" 47486153 19057581
    ∷ row "LM4KF1" "Kelenföld vasútállomás (Etele tér)" 47464273 19021033
    ∷ row "LM4KF2" "Kelenföld vasútállomás (vasútállomás)" 47464305 19020529
    ∷ row "LM4KF3" "Kelenföld vasútállomás [B]" 47464342 19019925
    ∷ row "LM4KF4" "Kelenföld vasútállomás (Őrmező)" 47464358 19019665
    ∷ row "LM4KFA" "Kelenföld vasútállomás [A]" 47464176 19022057
    ∷ row "LM4KFB" "Kelenföld vasútállomás [C]" 47464111 19018371
    ∷ row "LM4KFC" "Kelenföld vasútállomás [D]" 47464126 19018006
    ∷ row "LM4KFD" "Kelenföld vasútállomás [E]" 47464703 19018151
    ∷ row "LM4KP2" "Keleti pályaudvar (Thököly út)" 47500620 19082038
    ∷ row "LM4KP3" "Keleti pályaudvar (Baross tér)" 47499857 19081348
    ∷ row "LM4KV1" "Kálvin tér" 47489048 19061394
    ∷ row "LM4MK1" "Móricz Zsigmond körtér" 47477369 19047515
    ∷ row "LM4MK2" "Móricz Zsigmond körtér (Váli utca)" 47476569 19047322
    ∷ row "LM4MK3" "Móricz Zsigmond körtér [lift]" 47477421 19047531
    ∷ row "LM4MKA" "Móricz Zsigmond körtér [A]" 47477342 19046972
    ∷ row "LM4MKB" "Móricz Zsigmond körtér [B]" 47477591 19047013
    ∷ row "LM4MKC" "Móricz Zsigmond körtér [C]" 47477681 19046940
    ∷ row "LM4MKD" "Móricz Zsigmond körtér [D]" 47477773 19046558
    ∷ row "LM4MKE" "Móricz Zsigmond körtér [E]" 47477893 19046952
    ∷ row "LM4MKF" "Móricz Zsigmond körtér [F]" 47477914 19047368
    ∷ row "LM4MKG" "Móricz Zsigmond körtér [G]" 47477604 19047573
    ∷ row "LM4MKH" "Móricz Zsigmond körtér [H]" 47477407 19047984
    ∷ row "LM4MKI" "Móricz Zsigmond körtér [I]" 47477128 19047393
    ∷ row "LM4MKJ" "Móricz Zsigmond körtér [J]" 47476534 19047630
    ∷ row "LM4MKK" "Móricz Zsigmond körtér [K]" 47476839 19047061
    ∷ row "LM4SG1" "Szent Gellért tér" 47483473 19053841
    ∷ row "LM4SG2" "Szent Gellért tér (Műegyetemi rakpart)" 47483018 19054657
    ∷ row "LM4UK1" "Újbuda-központ" 47473931 19046312
    ∷ row "LMXDF1" "Deák Ferenc tér [lift » M3]" 47498995 19054310
    ∷ row "LMXDFA" "Deák Ferenc tér [A]" 47497840 19055142
    ∷ row "LMXDFB" "Deák Ferenc tér [B]" 47497717 19055341
    ∷ row "LMXDFC" "Deák Ferenc tér [C]" 47497463 19055144
    ∷ row "LMXDFD" "Deák Ferenc tér [D]" 47497334 19055003
    ∷ row "LMXDFE" "Deák Ferenc tér [E]" 47497444 19054694
    ∷ row "LMXKPA" "Keleti pályaudvar [A]" 47500708 19081836
    ∷ row "LMXKPB" "Keleti pályaudvar [B]" 47500835 19081892
    ∷ row "LMXKPC" "Keleti pályaudvar [C]" 47500824 19082096
    ∷ row "LMXKPD" "Keleti pályaudvar [D]" 47500557 19082443
    ∷ row "LMXKPE" "Keleti pályaudvar [E]" 47500468 19081907
    ∷ row "LMXKPF" "Keleti pályaudvar [F]" 47499954 19082972
    ∷ row "LMXKPG" "Keleti pályaudvar [G]" 47499476 19082804
    ∷ row "LMXKPH" "Keleti pályaudvar [H]" 47499479 19082419
    ∷ row "LMXKPI" "Keleti pályaudvar [I]" 47500377 19082327
    ∷ row "LMXKPJ" "Keleti pályaudvar [J]" 47500166 19081876
    ∷ row "LMXKPK" "Keleti pályaudvar [K]" 47499635 19080700
    ∷ row "LMXKPL" "Keleti pályaudvar [L]" 47499448 19080676
    ∷ row "LMXKPM" "Keleti pályaudvar [M]" 47499376 19080515
    ∷ row "LMXKPN" "Keleti pályaudvar [N]" 47499887 19079791
    ∷ row "LMXKV1" "Kálvin tér [lift]" 47489010 19061593
    ∷ row "LMXKVA" "Kálvin tér [A]" 47489987 19061298
    ∷ row "LMXKVB" "Kálvin tér [B]" 47489919 19062093
    ∷ row "LMXKVC" "Kálvin tér [C]" 47489727 19062364
    ∷ row "LMXKVD" "Kálvin tér [D]" 47489226 19061814
    ∷ row "LMXKVE" "Kálvin tér [E]" 47489559 19061525
    ∷ row "LMXKVF" "Kálvin tér [F]" 47489696 19061327
    ∷ row "LMXKVG" "Kálvin tér [G]" 47489897 19061217
    ∷ row "MERGED_062944" "Czetz János köz" 47578206 19049333
    ∷ row "MERGED_064075" "Szigetszentmiklós, Szabadság utca" 47358296 19031884
    ∷ row "MERGED_F00568" "Bécsi út / Vörösvári út" 47548489 19028994
    ∷ row "MERGED_F00678" "Óbudai autóbuszgarázs" 47567996 19026289
    ∷ row "MERGED_F01013" "Astoria M" 47494145 19060146
    ∷ row "MERGED_F01031" "Nyugati pályaudvar M (Podmaniczky utca)" 47509276 19058597
    ∷ row "MERGED_F01401" "Közvágóhíd H" 47467527 19075886
    ∷ row "MERGED_F02865" "Nagy Lajos király útja / Czobor utca" 47522827 19102034
    ∷ row "MERGED_F03810" "Ferihegy vasútállomás" 47436741 19222565
    ∷ []
