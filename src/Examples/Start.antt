-- ===== src/Examples/Start.antt =====
-- The start of a process whose node does not answer.
use hoodalpha.Prelude.{if◌then◌else◌, refl, Bool, true, false, List, [], ◌∷◌, arith}
use hoodalpha.Go.Error.{new, ok, err}
use hoodalpha.Bootstrap.{Handle, chain, Infrastructure}
use hoodalpha.Bootstrap.Closing.{IsTracked}

abbrev tail_of : List Handle → List Handle
tail_of [] = []
tail_of (_ ∷ hs) = hs

abbrev is_chain_handle : Handle → Bool
is_chain_handle chain = true
is_chain_handle _ = false

-- The state is the handles that are open, the newest first.
abbrev pub machine : Infrastructure (List Handle)
machine = record {
  migrations = λ hs. (ok tt, hs);
  open_handle = λ h hs. if is_chain_handle h then (err (new []), hs) else (ok tt, h ∷ hs);
  close_handle = λ h hs. (ok tt, tail_of hs);
}

pub machine-IsTracked : IsTracked machine (λ hs. hs)
machine-IsTracked = record {
  made = λ h s s1 e. ground arith;
  failed = λ h s s1 f e. ground arith;
  migrated = λ s. refl;
  shut = λ h s rest e. ground arith;
}
