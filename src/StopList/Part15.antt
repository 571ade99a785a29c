-- ===== src/StopList/Part15.antt =====
-- Lines 2271 to 2420 of bkk_uds/bkk_stop_list.h.
use mathlib.Core.List.{List, [], ◌∷◌}
use bkk_api.StopList.Row.{BkkStop, row}

unfoldable pub stops_15 : List BkkStop
stops_15 =
    row "F00714" "Megyeri út / Fóti út" 47580286 19088731
    ∷ row "F00715" "Megyeri út" 47579647 19088983
    ∷ row "F00716" "Megyer, Szondi utca" 47585797 19094678
    ∷ row "F00717" "Megyer, Szondi utca" 47585600 19094053
    ∷ row "F00718" "Megyer, Szondi utca" 47586247 19095104
    ∷ row "F00720" "Homoktövis utca / Megyeri út" 47594008 19113778
    ∷ row "F00721" "Homoktövis utca / Megyeri út" 47593847 19113671
    ∷ row "F00722" "Káposztásmegyer, Mogyoródi-patak" 47598483 19121269
    ∷ row "F00723" "Káposztásmegyer, Megyeri út" 47593204 19119973
    ∷ row "F00724" "Káposztásmegyer, Megyeri út" 47593141 19120265
    ∷ row "F00725" "Káposztásmegyer, Megyeri út" 47593452 19120494
    ∷ row "F00726" "Szíjgyártó utca" 47589187 19114942
    ∷ row "F00727" "Szíjgyártó utca" 47588837 19114104
    ∷ row "F00728" "Homoktövis utca (Óvoda)" 47589527 19117973
    ∷ row "F00729" "Homoktövis utca (Óvoda)" 47590085 19117283
    ∷ row "F00730" "Gimnázium" 47582698 19106240
    ∷ row "F00731" "Gimnázium" 47582644 19105908
    ∷ row "F00732" "Művelődési Központ" 47579782 19109254
    ∷ row "F00733" "Művelődési Központ" 47579639 19109041
    ∷ row "F00734" "Járműtelep utca" 47582863 19116848
    ∷ row "F00735" "Járműtelep utca" 47582570 19117063
    ∷ row "F00736" "Járműtelep utca" 47582130 19116903
    ∷ row "F00737" "Járműtelep utca" 47581865 19116594
    ∷ row "F00738" "Galopp utca" 47580597 19116672
    ∷ row "F00739" "Hajló utca" 47578773 19112377
    ∷ row "F00740" "Hajló utca" 47578593 19112616
    ∷ row "F00741" "Óceán-árok utca" 47577953 19115938
    ∷ row "F00742" "Káposztásmegyer, Szilas-patak" 47577657 19115153
    ∷ row "F00743" "Óceán-árok utca" 47578118 19116167
    ∷ row "F00744" "Óceán-árok utca" 47577714 19115900
    ∷ row "F00745" "Óceán-árok utca" 47578358 19115752
    ∷ row "F00746" "Káposztásmegyer, Szilas-patak" 47577279 19114435
    ∷ row "F00747" "Ugró Gyula sor" 47580363 19099139
    ∷ row "F00748" "Erdősor út" 47578093 19106953
    ∷ row "F00749" "Erdősor út" 47578003 19106647
    ∷ row "F00750" "Erdősor út" 47577842 19105730
    ∷ row "F00751" "Iglói utca" 47573661 19102987
    ∷ row "F00752" "Vadgesztenye utca" 47575378 19104398
    ∷ row "F00753" "Baross utca / Fóti út" 47577829 19093501
    ∷ row "F00754" "Baross utca / Fóti út" 47577577 19092810
    ∷ row "F00755" "Baross utca / Fóti út" 47577020 19092809
    ∷ row "F00756" "Baross utca / Fóti út" 47577226 19093780
    ∷ row "F00757" "Bucka utca" 47575003 19098363
    ∷ row "F00758" "Bucka utca" 47575003 19098084
    ∷ row "F00759" "Bucka utca" 47574481 19098350
    ∷ row "F00760" "Iglói utca" 47572752 19103172
    ∷ row "F00761" "Iglói utca" 47573085 19103000
    ∷ row "F00762" "Iglói utca" 47572950 19102375
    ∷ row "F00764" "Szilágyi utca" 47570427 19112659
    ∷ row "F00767" "Szusza Ferenc Stadion" 47576042 19083943
    ∷ row "F00768" "Irányi Dániel utca" 47577004 19086655
    ∷ row "F00769" "Irányi Dániel utca / Baross utca" 47575653 19091280
    ∷ row "F00770" "Irányi Dániel utca / Baross utca" 47574044 19089816
    ∷ row "F00771" "Baross utca" 47574952 19090429
    ∷ row "F00772" "Vécsey Károly utca / Nádor utca" 47571937 19095928
    ∷ row "F00773" "Vécsey Károly utca" 47569777 19099594
    ∷ row "F00775" "Vécsey Károly utca" 47569525 19099182
    ∷ row "F00776" "Türr István utca / Nádor utca" 47569303 19093640
    ∷ row "F00777" "Türr István utca / Nádor utca" 47569258 19092829
    ∷ row "F00778" "Türr István utca / Nádor utca" 47569690 19092870
    ∷ row "F00779" "Szent László tér" 47567016 19097877
    ∷ row "F00780" "Szent László tér" 47567961 19097759
    ∷ row "F00781" "Szent László tér" 47567889 19096828
    ∷ row "F00782" "Illek Vince utca" 47565716 19088322
    ∷ row "F00783" "Illek Vince utca" 47565968 19088787
    ∷ row "F00784" "Csokonai utca" 47565032 19090527
    ∷ row "F00785" "Csokonai utca" 47564924 19090607
    ∷ row "F00786" "Kiss Ernő utca" 47565033 19094023
    ∷ row "F00787" "Kiss Ernő utca" 47564869 19092587
    ∷ row "F00788" "Kiss Ernő utca" 47564961 19094621
    ∷ row "F00789" "Újpesti rendelőintézet" 47565765 19099843
    ∷ row "F00790" "Újpesti rendelőintézet" 47565210 19100535
    ∷ row "F00791" "Újpesti rendelőintézet" 47565478 19100055
    ∷ row "F00792" "Újpesti rendelőintézet" 47565094 19099844
    ∷ row "F00793" "Újpesti piac" 47563081 19087987
    ∷ row "F00794" "Templom utca" 47563198 19086725
    ∷ row "F00795" "Szent István tér (Újpesti piac)" 47562804 19090592
    ∷ row "F00796" "Szent István tér (Újpesti piac)" 47563191 19090779
    ∷ row "F00797" "Újpest-központ M" 47560187 19089740
    ∷ row "F00798" "Újpest-központ M" 47560672 19089833
    ∷ row "F00799" "Újpest-központ M" 47560616 19088238
    ∷ row "F00800" "Újpest-központ M" 47560157 19090922
    ∷ row "F00801" "Újpest-központ M" 47560184 19090683
    ∷ row "F00803" "Újpest-központ M" 47560454 19090377
    ∷ row "F00804" "Újpest-központ M" 47561020 19090218
    ∷ row "F00805" "Újpest-központ M" 47560391 19090816
    ∷ row "F00806" "Újpest-központ M" 47559825 19089407
    ∷ row "F00808" "Árpád út" 47561060 19079522
    ∷ row "F00809" "Újpest-városkapu M" 47560492 19083468
    ∷ row "F00810" "Újpest-városkapu M" 47560690 19083016
    ∷ row "F00811" "Újpest-városkapu M (Temesvári utca)" 47559620 19082351
    ∷ row "F00812" "Csányi László utca" 47558000 19085313
    ∷ row "F00813" "Aradi utca" 47556453 19084395
    ∷ row "F00814" "Újpest-központ M (Munkásotthon utca)" 47559213 19089566
    ∷ row "F00815" "Újpest-központ M (Munkásotthon utca)" 47559114 19089140
    ∷ row "F00816" "Tél utca / Pozsonyi utca" 47555615 19090294
    ∷ row "F00817" "Tél utca / Pozsonyi utca" 47555408 19090254
    ∷ row "F00818" "Tél utca / Pozsonyi utca" 47556247 19088847
    ∷ row "F00819" "Tél utca / Pozsonyi utca" 47554997 19089643
    ∷ row "F00820" "Angyalföld kocsiszín" 47553114 19092696
    ∷ row "F00821" "Angyalföld kocsiszín" 47553105 19091448
    ∷ row "F00822" "Angyalföld kocsiszín" 47553044 19091674
    ∷ row "F00823" "Angyalföld kocsiszín" 47552945 19091847
    ∷ row "F00824" "Bőröndös utca" 47585040 19116838
    ∷ row "F00825" "Bőröndös utca" 47585417 19117197
    ∷ row "F00826" "Bőröndös utca" 47585628 19117479
    ∷ row "F00827" "Bőröndös utca" 47585278 19117186
    ∷ row "F00828" "Újpesti Erőmű" 47555171 19099660
    ∷ row "F00829" "Újpesti Erőmű" 47554999 19100842
    ∷ row "F00830" "Elem utca" 47554961 19104615
    ∷ row "F00831" "Elem utca" 47554539 19104243
    ∷ row "F00832" "Munkásotthon utca" 47559074 19099332
    ∷ row "F00833" "Árpád üzletház" 47561062 19098868
    ∷ row "F00834" "Árpád üzletház" 47561008 19099134
    ∷ row "F00835" "Árpád üzletház" 47560145 19098030
    ∷ row "F00836" "Árpád üzletház" 47560378 19099824
    ∷ row "F00837" "Víztorony" 47562273 19106670
    ∷ row "F00838" "Víztorony" 47562093 19106869
    ∷ row "F00840" "Víztorony" 47561948 19107706
    ∷ row "F00841" "Kiss János utca" 47563422 19109700
    ∷ row "F00842" "Kiss János utca" 47563269 19110338
    ∷ row "F00843" "Rákospalota-Újpest vasútállomás" 47564339 19110725
    ∷ row "F00844" "Rákospalota-Újpest vasútállomás" 47564312 19110592
    ∷ row "F00845" "Rákospalota-Újpest vasútállomás" 47566257 19111885
    ∷ row "F00846" "Rákospalota-Újpest vasútállomás" 47565870 19111619
    ∷ row "F00847" "Rákospalota-Újpest vasútállomás" 47564923 19111018
    ∷ row "F00848" "Mildenberger utca" 47572528 19088075
    ∷ row "F00849" "Mildenberger utca" 47572093 19088419
    ∷ row "F00850" "Mildenberger utca" 47572003 19087768
    ∷ row "F00851" "Attila utca" 47564018 19082314
    ∷ row "F00852" "Attila utca" 47563901 19082354
    ∷ row "F00853" "Szülőotthon" 47565105 19107802
    ∷ row "F00854" "Erzsébet utca" 47559705 19095306
    ∷ row "F00855" "Erzsébet utca" 47559960 19093819
    ∷ row "F00856" "Homoktövis iskola" 47596795 19116028
    ∷ row "F00859" "Káposztásmegyer, Szilas-patak" 47577783 19114861
    ∷ row "F00860" "Káposztásmegyer, Szilas-patak" 47577270 19115100
    ∷ row "F00861" "Tél utca / Pozsonyi utca" 47556839 19088873
    ∷ row "F00862" "Tél utca / Pozsonyi utca" 47556902 19088488
    ∷ row "F00863" "Brüsszeli utca" 47549460 19098658
    ∷ row "F00864" "Brüsszeli utca" 47548956 19098538
    ∷ row "F00867" "Béla utca" 47580747 19081673
    ∷ row "F00868" "Béla utca" 47580321 19081462
    ∷ row "F00869" "Tungsram" 47576547 19081338
    ∷ row "F00870" "Tungsram" 47576205 19081112
    ∷ row "F00871" "Dunakeszi utca" 47585494 19109088
    ∷ row "F00872" "Dunakeszi utca" 47584694 19107864
    ∷ row "F00873" "Zombori utca" 47571968 19105750
    ∷ row "F00874" "Zombori utca" 47571878 19106627
    ∷ row "F00875" "Pajtás utca" 47571451 19108238
    ∷ []
