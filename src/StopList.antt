-- ===== src/StopList.antt =====
-- The table `bkk_stop_list` of bkk_uds/bkk_stop_list.h, in parts of 150 rows (`Part00` to `Part40`),
-- and its element type (`Row`).
pub mod Row
pub mod Order
mod Part00
mod Part01
mod Part02
mod Part03
mod Part04
mod Part05
mod Part06
mod Part07
mod Part08
mod Part09
mod Part10
mod Part11
mod Part12
mod Part13
mod Part14
mod Part15
mod Part16
mod Part17
mod Part18
mod Part19
mod Part20
mod Part21
mod Part22
mod Part23
mod Part24
mod Part25
mod Part26
mod Part27
mod Part28
mod Part29
mod Part30
mod Part31
mod Part32
mod Part33
mod Part34
mod Part35
mod Part36
mod Part37
mod Part38
mod Part39
mod Part40
use bkk_api.Common.{ℕ, List, ◌++◌}
use Row.{BkkStop}
use Part00.{stops_00}
use Part01.{stops_01}
use Part02.{stops_02}
use Part03.{stops_03}
use Part04.{stops_04}
use Part05.{stops_05}
use Part06.{stops_06}
use Part07.{stops_07}
use Part08.{stops_08}
use Part09.{stops_09}
use Part10.{stops_10}
use Part11.{stops_11}
use Part12.{stops_12}
use Part13.{stops_13}
use Part14.{stops_14}
use Part15.{stops_15}
use Part16.{stops_16}
use Part17.{stops_17}
use Part18.{stops_18}
use Part19.{stops_19}
use Part20.{stops_20}
use Part21.{stops_21}
use Part22.{stops_22}
use Part23.{stops_23}
use Part24.{stops_24}
use Part25.{stops_25}
use Part26.{stops_26}
use Part27.{stops_27}
use Part28.{stops_28}
use Part29.{stops_29}
use Part30.{stops_30}
use Part31.{stops_31}
use Part32.{stops_32}
use Part33.{stops_33}
use Part34.{stops_34}
use Part35.{stops_35}
use Part36.{stops_36}
use Part37.{stops_37}
use Part38.{stops_38}
use Part39.{stops_39}
use Part40.{stops_40}

-- `BKK_STOP_COUNT`.
abbrev pub bkk_stop_count : ℕ
bkk_stop_count = 6137

unfoldable pub bkk_stop_list : List BkkStop
unfolding stops_00 stops_01 stops_02 stops_03 stops_04 stops_05 stops_06 stops_07 stops_08 stops_09
    stops_10 stops_11 stops_12 stops_13 stops_14 stops_15 stops_16 stops_17 stops_18 stops_19
    stops_20 stops_21 stops_22 stops_23 stops_24 stops_25 stops_26 stops_27 stops_28 stops_29
    stops_30 stops_31 stops_32 stops_33 stops_34 stops_35 stops_36 stops_37 stops_38 stops_39
    stops_40
bkk_stop_list =
    stops_00
    ++ (stops_01
        ++ (stops_02
            ++ (stops_03
                ++ (stops_04
                    ++ (stops_05
                        ++ (stops_06
                            ++ (stops_07
                                ++ (stops_08
                                    ++ (stops_09
                                        ++ (stops_10
                                            ++ (stops_11
                                                ++ (stops_12
                                                    ++ (stops_13
                                                        ++ (stops_14
                                                            ++ (stops_15
                                                            ++ (stops_16
                                                            ++ (stops_17
                                                            ++ (stops_18
                                                            ++ (stops_19
                                                            ++ (stops_20
                                                            ++ (stops_21
                                                            ++ (stops_22
                                                            ++ (stops_23
                                                            ++ (stops_24
                                                            ++ (stops_25
                                                            ++ (stops_26
                                                            ++ (stops_27
                                                            ++ (stops_28
                                                            ++ (stops_29
                                                            ++ (stops_30
                                                            ++ (stops_31
                                                            ++ (stops_32
                                                            ++ (stops_33
                                                            ++ (stops_34
                                                            ++ (stops_35
                                                            ++ (stops_36
                                                            ++ (stops_37
                                                            ++ (stops_38
                                                            ++ (stops_39
                                                            ++ (stops_40))))))))))))))))))))))))))))))))))))))))
