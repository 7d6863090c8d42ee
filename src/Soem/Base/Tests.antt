-- ===== src/Soem/Base/Tests.antt =====
-- Primitives on a network that does not answer.
use bharatiya_beagle_bone.Common.{inl, refl, [], ◌∷◌, get_or-replicate}
use bharatiya_beagle_bone.Soem.Frame.{brd}
use bharatiya_beagle_bone.Soem.Base.{exchange, ecx_lrwdc}
use bharatiya_beagle_bone.Soem.Base.Exchange.{AllFree, exchange-AllFree, ecx_lrwdc-AllFree}
use bharatiya_beagle_bone.Soem.Samples.{silent, free_port, quiet_net}

free_port-AllFree : AllFree free_port
free_port-AllFree = record {
  primary_free = λ j. get_or-replicate 16 j 0;
  secondary_free = inl refl;
}

exchange-AllFree_example :
    AllFree (exchange silent brd 0 0x130 2 (0 ∷ 0 ∷ []) 2000 quiet_net).1.port
exchange-AllFree_example =
    exchange-AllFree silent brd 0 0x130 2 (0 ∷ 0 ∷ []) 2000 quiet_net free_port-AllFree

ecx_lrwdc-AllFree_example :
    AllFree (ecx_lrwdc silent 8 0x10000 2 (0 ∷ 0 ∷ []) 0x1001 (0 ∷ 0 ∷ []) 2000 quiet_net).1.port
ecx_lrwdc-AllFree_example =
    ecx_lrwdc-AllFree silent 8 0x10000 2 (0 ∷ 0 ∷ []) 0x1001 (0 ∷ 0 ∷ []) 2000 quiet_net
      free_port-AllFree
