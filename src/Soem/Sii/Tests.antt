-- ===== src/Soem/Sii/Tests.antt =====
-- A byte of an EEPROM that reads as zeros, and a search in it.
use bharatiya_beagle_bone.Common.{
  ℕ, ◌≡◌, inl, refl, ap, ◌∙◌, arith, [], ◌∷◌, get_or, replicate, get_or-replicate, length-replicate,
  do_while, memcpy, bytes_at,
}
use bharatiya_beagle_bone.Soem.Slaves.{Context, no_slave, eeprom2master, readeeprom_fp}
use bharatiya_beagle_bone.Soem.Eeprom.{
  readeeprom_with, poll_status, waitnotbusy, clear_errors, read_pass, write_retrying, fetch,
  read_retrying,
}
use bharatiya_beagle_bone.Soem.Base.{
  ecx_fprd, ecx_fpwr, read_with, write_with, exchange, prepare, confirm, put_frame,
}
use bharatiya_beagle_bone.Soem.Nic.{
  getindex, find_empty, next_index, setbufstat, outframe_red, outframe,
}
use bharatiya_beagle_bone.Soem.Nic.Receive.{
  srconfirm, send_and_wait, waitinframe, waitinframe_red, poll_both, poll_socket, inframe, recvpkt,
  sort_frame, take_filed,
}
use bharatiya_beagle_bone.Soem.Frame.{setup_datagram, write_datagram_data, write_header, payload}
use bharatiya_beagle_bone.Soem.Sii.{own_cache, siigetbyte}
use bharatiya_beagle_bone.Soem.Sii.Cache.{Coherent, answer_for, siigetbyte-Coherent}
use bharatiya_beagle_bone.Soem.Samples.{silent, two_slaves}

abbrev zeros : ℕ → ℕ
zeros _ = 0

-- Slave 1 with its EEPROM held by the master.
abbrev owned : Context ℕ
owned = record two_slaves { slavelist = no_slave ∷ record no_slave { configadr = 0x1001 } ∷ [] }

silent_answer : answer_for silent 0 1 zeros 128 (own_cache silent 0 1 owned) ≡ replicate 8 0
unfolding own_cache eeprom2master readeeprom_fp readeeprom_with do_while poll_status waitnotbusy
    clear_errors read_pass write_retrying fetch read_retrying ecx_fprd ecx_fpwr read_with write_with
    exchange prepare confirm getindex find_empty next_index setbufstat setup_datagram
    write_datagram_data write_header payload put_frame srconfirm send_and_wait outframe_red outframe
    waitinframe waitinframe_red poll_both poll_socket inframe recvpkt sort_frame take_filed memcpy
    bytes_at
silent_answer = refl

siigetbyte-Coherent_example :
    ((siigetbyte silent 0 1 128 owned).0 ≡ 0)
    × Coherent zeros (siigetbyte silent 0 1 128 owned).1
    × ((siigetbyte silent 0 1 128 owned).1.esislave ≡ 1)
siigetbyte-Coherent_example =
    siigetbyte-Coherent silent 0 1 zeros 128 owned (inl (λ e. absurd (omega arith)))
      (length-replicate {A = ℕ} 4096 0)
      (λ i _. ap (λ bytes. get_or bytes i 0) silent_answer ∙ get_or-replicate 8 i 0) (omega arith)
