-- ===== src/StopList/Part10.antt =====
-- Lines 1521 to 1670 of bkk_uds/bkk_stop_list.h.
use mathlib.Core.List.{List, [], ◌∷◌}
use bkk_api.StopList.Row.{BkkStop, row}

unfoldable pub stops_10 : List BkkStop
stops_10 =
    row "19824" "Mátyásföld, repülőtér" 47511857 19194054
    ∷ row "19824287" "Mátyásföld, repülőtér" 47511857 19194054
    ∷ row "19824288" "Mátyásföld, repülőtér" 47511857 19194054
    ∷ row "19825" "Mátyásföld, Imre utca" 47513546 19199582
    ∷ row "19825289" "Mátyásföld, Imre utca" 47513546 19199582
    ∷ row "19825290" "Mátyásföld, Imre utca" 47513546 19199582
    ∷ row "19826" "Mátyásföld alsó" 47515986 19207456
    ∷ row "19826291" "Mátyásföld alsó" 47515986 19207456
    ∷ row "19826292" "Mátyásföld alsó" 47515986 19207456
    ∷ row "19828" "Cinkota" 47519435 19217338
    ∷ row "19828293" "Cinkota" 47519435 19217338
    ∷ row "19828294" "Cinkota" 47519435 19217338
    ∷ row "19828295" "Cinkota" 47519435 19217338
    ∷ row "19828296" "Cinkota" 47519435 19217338
    ∷ row "19828641" "Cinkota" 47519435 19217338
    ∷ row "19828642" "Cinkota" 47519435 19217338
    ∷ row "19829" "Cinkota alsó" 47526364 19220986
    ∷ row "19829297" "Cinkota alsó" 47526364 19220986
    ∷ row "19830" "Árpádföld" 47532979 19212554
    ∷ row "19830298" "Árpádföld" 47532979 19212554
    ∷ row "19831" "Szabadságtelep" 47537404 19206185
    ∷ row "19831299" "Szabadságtelep" 47537404 19206185
    ∷ row "19836" "Csömör" 47545049 19225058
    ∷ row "19836301" "Csömör" 47545049 19225058
    ∷ row "19841" "Ilonatelep" 47526627 19229403
    ∷ row "19841302" "Ilonatelep" 47526627 19229403
    ∷ row "19841303" "Ilonatelep" 47526627 19229403
    ∷ row "19843" "Kistarcsa, kórház" 47539065 19249034
    ∷ row "19843304" "Kistarcsa, kórház" 47539065 19249034
    ∷ row "19843305" "Kistarcsa, kórház" 47539065 19249034
    ∷ row "19845" "Kistarcsa" 47545832 19259801
    ∷ row "19845306" "Kistarcsa" 47545832 19259801
    ∷ row "19845307" "Kistarcsa" 47545832 19259801
    ∷ row "19847" "Zsófialiget" 47548442 19264069
    ∷ row "19847308" "Zsófialiget" 47548442 19264069
    ∷ row "19847309" "Zsófialiget" 47548442 19264069
    ∷ row "19848" "Kerepes" 47553433 19271377
    ∷ row "19848310" "Kerepes" 47553433 19271377
    ∷ row "19848311" "Kerepes" 47553433 19271377
    ∷ row "19848551" "Kerepes" 47553433 19271377
    ∷ row "19849" "Szilasliget" 47568488 19275036
    ∷ row "19849312" "Szilasliget" 47568488 19275036
    ∷ row "19849313" "Szilasliget" 47568488 19275036
    ∷ row "19851" "Mogyoród" 47595970 19271560
    ∷ row "19851314" "Mogyoród" 47595970 19271560
    ∷ row "19851315" "Mogyoród" 47595970 19271560
    ∷ row "19865" "Szentjakab" 47597338 19290352
    ∷ row "19865317" "Szentjakab" 47597338 19290352
    ∷ row "19865318" "Szentjakab" 47597338 19290352
    ∷ row "19867" "Gödöllő, Erzsébet park" 47595072 19340771
    ∷ row "19867319" "Gödöllő, Erzsébet park" 47595072 19340771
    ∷ row "19867320" "Gödöllő, Erzsébet park" 47595072 19340771
    ∷ row "19868321" "Gödöllő, Szabadság tér" 47597505 19347599
    ∷ row "19868322" "Gödöllő, Szabadság tér" 47597827 19348252
    ∷ row "19869" "Gödöllő, Palotakert" 47598525 19356661
    ∷ row "19869323" "Gödöllő, Palotakert" 47598525 19356661
    ∷ row "19869324" "Gödöllő, Palotakert" 47598525 19356661
    ∷ row "19870" "Gödöllő" 47593341 19357787
    ∷ row "19870325" "Gödöllő" 47593341 19357787
    ∷ row "19870326" "Gödöllő" 47593341 19357787
    ∷ row "214306" "Bécsi út / Vörösvári út" 47550415 19028432
    ∷ row "218152" "Miskolci utca / Csömöri út" 47526684 19121771
    ∷ row "218155" "Miskolci utca / Csömöri út" 47527089 19120763
    ∷ row "218156" "Huszt utcai lakótelep" 47527980 19119223
    ∷ row "218157" "Huszt utcai lakótelep" 47528286 19118432
    ∷ row "218158" "Miskolci utca / Kerékgyártó utca" 47530043 19115168
    ∷ row "218159" "Miskolci utca / Kerékgyártó utca" 47530267 19114543
    ∷ row "218160" "Miskolci utca / Erzsébet királyné útja" 47532177 19111035
    ∷ row "218161" "Miskolci utca / Erzsébet királyné útja" 47532060 19111034
    ∷ row "218666" "Budafok KSZ delta váltó (Belváros felé)" 47440480 19036300
    ∷ row "218712" "Savoya elágnál KSZ-be Budafok KSZ - Savo" 47437060 19036920
    ∷ row "224240" "Kondorosi út" 47449772 19050261
    ∷ row "226468" "Gubacsi út / Határ út" 47444834 19097924
    ∷ row "226474" "Erzsébet királyné útja / Róna utca" 47521459 19100705
    ∷ row "CS056215" "Kelenföld vasútállomás" 47464299 19019717
    ∷ row "CS056217" "Bikás park" 47465005 19033383
    ∷ row "CS056219" "Újbuda-központ" 47473931 19046312
    ∷ row "CS056221" "Móricz Zsigmond körtér" 47477362 19047272
    ∷ row "CS056223" "Szent Gellért tér - Műegyetem" 47483245 19054249
    ∷ row "CS056225" "Fővám tér" 47486401 19057320
    ∷ row "CS056227" "Kálvin tér" 47489628 19061654
    ∷ row "CS056229" "Rákóczi tér" 47492722 19071817
    ∷ row "CS056231" "II. János Pál pápa tér" 47495300 19077244
    ∷ row "CS056233" "Keleti pályaudvar" 47500090 19081794
    ∷ row "CSF00062" "Batthyány tér" 47506363 19039112
    ∷ row "CSF00093" "Déli pályaudvar" 47500375 19024802
    ∷ row "CSF00897" "Újpest-Városkapu" 47559009 19079416
    ∷ row "CSF00912" "Újpest-központ" 47560429 19089926
    ∷ row "CSF00936" "Nyugati pályaudvar" 47510768 19056111
    ∷ row "CSF00952" "Ferenciek tere" 47493136 19055890
    ∷ row "CSF00954" "Deák Ferenc tér" 47497771 19054510
    ∷ row "CSF00956" "Arany János utca" 47503063 19054531
    ∷ row "CSF00958" "Kossuth Lajos tér" 47505475 19046620
    ∷ row "CSF00964" "Vörösmarty tér" 47496803 19050579
    ∷ row "CSF00996" "Bajcsy-Zsilinszky út" 47499876 19055326
    ∷ row "CSF01018" "Astoria" 47494364 19060024
    ∷ row "CSF01079" "Opera" 47502243 19058873
    ∷ row "CSF01085" "Oktogon" 47505083 19063168
    ∷ row "CSF01092" "Vörösmarty utca" 47507212 19066322
    ∷ row "CSF01095" "Kodály körönd" 47509234 19069341
    ∷ row "CSF01100" "Bajza utca" 47511320 19072494
    ∷ row "CSF01102" "Hősök tere" 47514255 19076844
    ∷ row "CSF01188" "Corvin-negyed" 47485869 19069984
    ∷ row "CSF01232" "Semmelweis Klinikák" 47482834 19079176
    ∷ row "CSF01252" "Nagyvárad tér" 47479161 19089542
    ∷ row "CSF01282" "Népliget" 47475518 19098694
    ∷ row "CSF01291" "Blaha Lujza tér" 47497097 19070595
    ∷ row "CSF01324" "Puskás Ferenc Stadion" 47500266 19105988
    ∷ row "CSF01493" "Ecseri út" 47470893 19110921
    ∷ row "CSF01541" "Határ út" 47465394 19126672
    ∷ row "CSF01543" "Kőbánya-Kispest [D]" 47463437 19148625
    ∷ row "CSF01742" "Pillangó utca" 47501310 19120057
    ∷ row "CSF01749" "Örs vezér tere" 47503187 19136309
    ∷ row "CSF01878" "Pöttyös utca" 47468420 19117361
    ∷ row "CSF02480" "Széll Kálmán tér" 47506982 19024828
    ∷ row "CSF02613" "Lehel tér" 47518118 19060547
    ∷ row "CSF02637" "Göncz Árpád városközpont" 47532722 19066804
    ∷ row "CSF02680" "Dózsa György út" 47524585 19063323
    ∷ row "CSF02682" "Forgách utca" 47539243 19069512
    ∷ row "CSF02684" "Gyöngyösi utca" 47548889 19073265
    ∷ row "CSF02696" "Széchenyi fürdő" 47517498 19080980
    ∷ row "CSF02887" "Mexikói út" 47519611 19091089
    ∷ row "F00001" "Mihály utca" 47486079 19034561
    ∷ row "F00002" "Zsolt utca" 47490396 19030555
    ∷ row "F00003" "Zsolt utca" 47490540 19030395
    ∷ row "F00004" "Mészáros utca" 47488273 19031033
    ∷ row "F00005" "Mészáros utca" 47488606 19031564
    ∷ row "F00006" "Sánc utca" 47490088 19036191
    ∷ row "F00007" "Sánc utca" 47489542 19035491
    ∷ row "F00008" "Sánc utca" 47489632 19035717
    ∷ row "F00009" "Sánc utca" 47489425 19035836
    ∷ row "F00010" "Szirtes út" 47487663 19036460
    ∷ row "F00011" "Szirtes út" 47488263 19037081
    ∷ row "F00012" "Búsuló Juhász (Citadella)" 47485594 19039551
    ∷ row "F00013" "Királyhágó utca" 47494901 19023055
    ∷ row "F00014" "Királyhágó utca" 47494460 19023945
    ∷ row "F00015" "Királyhágó utca" 47494839 19023732
    ∷ row "F00016" "Királyhágó utca" 47495569 19022686
    ∷ row "F00017" "Királyhágó utca" 47495267 19023502
    ∷ row "F00018" "Királyhágó utca" 47495669 19023612
    ∷ row "F00019" "Nagyenyed utca" 47498029 19023858
    ∷ row "F00020" "Nagyenyed utca" 47498335 19024011
    ∷ row "F00022" "Déli pályaudvar M" 47499686 19024208
    ∷ row "F00023" "Déli pályaudvar M" 47500001 19023809
    ∷ row "F00024" "Déli pályaudvar M" 47500848 19024021
    ∷ row "F00025" "Déli pályaudvar M" 47501106 19024177
    ∷ row "F00026" "Déli pályaudvar M" 47500801 19024990
    ∷ row "F00027" "Déli pályaudvar M" 47501071 19024671
    ∷ row "F00028" "Körmöci utca" 47504372 19024988
    ∷ row "F00029" "Körmöci utca" 47504138 19024989
    ∷ []
