-- ===== src/Soem/Coe/Port.antt =====
-- The interface of the CoE functions, by the library's mailbox and list of errors.
use bharatiya_beagle_bone.Common.{ℕ, false, true, get_or, set, Run}
use bharatiya_beagle_bone.Soem.Nic.{Wire}
use bharatiya_beagle_bone.Soem.Errors.{ErrorList, pusherror, packeterror, sdo_error, abort_code}
use bharatiya_beagle_bone.Soem.Slaves.{Context, slave_of, with_slave}
use bharatiya_beagle_bone.Soem.Mailbox.{mbxsend, nextmbxcnt}
use bharatiya_beagle_bone.Soem.Mailbox.Receive.{EoeHook, mbxreceive}
use bharatiya_beagle_bone.Soem.Coe.{Mail}
use bharatiya_beagle_bone.Soem.Coe.Mapping.{SyncManagers}

-- `ecx_SDOerror`
unfoldable pub sdoerror : ℕ → ℕ → ℕ → ℕ → ℕ → ErrorList → ErrorList
unfolding pusherror
sdoerror now slave index subidx code l =
    pusherror
      (record {
        time = now;
        signal = false;
        slave = slave;
        index = index;
        subidx = subidx;
        etype = sdo_error;
        detail = abort_code code;
      })
      (record l { ecaterror = true })

module _ {W : Type 0} (wire : Wire W) where
  -- An entry at the time of the clock.
  report : (ℕ → ErrorList → ErrorList) → Context W → Context W
  report push c =
      let (now, w) = wire.current_time c.net.world in
      record c { net = record (c.net) { world = w }; elist = push now c.elist }

  -- The counter of a slave's mailbox moves on, and is used for the message.
  count_on : ℕ → Run (Context W) ℕ
  unfolding nextmbxcnt
  count_on slave c =
      let cnt = nextmbxcnt (slave_of wire c slave).mbx_cnt in
      (cnt, with_slave wire slave (λ s. record s { mbx_cnt = cnt }) c)

  unfoldable pub library_mail : EoeHook wire → Mail (Context W)
  unfolding mbxsend mbxreceive count_on report sdoerror packeterror
  library_mail hook = record {
    send = mbxsend wire;
    receive = mbxreceive wire hook;
    next_cnt = count_on;
    mbx_l = λ slave c. (slave_of wire c slave).mbx_l;
    sdo_error = λ slave index subidx code. report (λ now. sdoerror now slave index subidx code);
    packet_error =
        λ slave index subidx code. report (λ now. packeterror now slave index subidx code);
  }

  -- The sync managers of a slave, of which there are EC_MAXSM.
  unfoldable pub library_managers : SyncManagers (Context W)
  library_managers = record {
    set_type =
        λ slave ism v. with_slave wire slave (λ s. record s { sm_type = set s.sm_type ism v });
    get_flags = λ slave ism c. get_or (slave_of wire c slave).sm_flags ism 0;
    set_flags =
        λ slave ism v. with_slave wire slave (λ s. record s { sm_flags = set s.sm_flags ism v });
    set_length =
        λ slave ism v. with_slave wire slave (λ s. record s { sm_length = set s.sm_length ism v });
  }
