-- ===== src/Soem/Errors/Tests.antt =====
-- An error into an empty ring, and out of it.
use bharatiya_beagle_bone.Common.{◌≡◌, arith, true, false, if◌then◌else◌, [], ◌∷◌, length-replicate}
use bharatiya_beagle_bone.Soem.Errors.{
  ErrorEntry, ErrorList, no_error, signalled, pusherror, poperror,
}
use bharatiya_beagle_bone.Soem.Errors.Queue.{
  IsValid, queued, enqueue, pusherror-queued, poperror-queued,
}
use bharatiya_beagle_bone.Soem.Samples.{no_errors}

abbrev lost : ErrorEntry
lost = record no_error { slave = 3 }

no_errors-IsValid : IsValid no_errors
no_errors-IsValid = record {
  head_inside = omega arith;
  tail_inside = omega arith;
  full_length = length-replicate 65 no_error;
}

pusherror-queued_example :
    IsValid (pusherror lost no_errors)
    × (queued (pusherror lost no_errors) ≡ enqueue (signalled true lost) (queued no_errors))
    × ((pusherror lost no_errors).ecaterror ≡ true)
pusherror-queued_example = pusherror-queued no_errors lost no_errors-IsValid

poperror-queued_example :
    let one : ErrorList = pusherror lost no_errors in
    IsValid (poperror one).2
    × (queued one ≡ (if (poperror one).0 then (poperror one).1 ∷ queued (poperror one).2 else []))
    × ((poperror one).2.ecaterror ≡ (if (poperror one).0 then one.ecaterror else false))
poperror-queued_example =
    poperror-queued (pusherror lost no_errors) (pusherror-queued no_errors lost no_errors-IsValid).0
