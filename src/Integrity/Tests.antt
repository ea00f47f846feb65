-- ===== src/Integrity/Tests.antt =====
-- A queue with a free slot and a check of image 5 from block 3 on, which grows by block 4.
use dnbd.Base.{◌≡◌, refl, true, false, none, some, [], ◌∷◌, arith}
use dnbd.Integrity.Queue.{CheckQueue, all, block, check, put_check, scan, verdict}
use dnbd.Integrity.Covered.{CheckIsRight, check_lem}

abbrev some_checks : CheckQueue
some_checks = record {
  running = true;
  entries =
      record { image = none; block = 0; count = 0 }
      ∷ record { image = some 5; block = 3; count = 1 }
      ∷ [];
}

check_lem_example : CheckIsRight 5 (block 4) some_checks (check some_checks 5 (block 4))
check_lem_example = check_lem some_checks 5 (block 4) (omega arith) (omega arith)

grown : check some_checks 5 (block 4) ≡ (
  record some_checks {
    entries =
        record { image = none; block = 0; count = 0 }
        ∷ record { image = some 5; block = 3; count = 2 }
        ∷ [];
  },
  true,
)
unfolding check put_check scan verdict
grown = refl

stopped :
    check (record some_checks { running = false }) 6 all
    ≡ (record some_checks { running = false }, false)
unfolding check put_check scan verdict
stopped = refl
