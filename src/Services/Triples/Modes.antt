-- ===== src/Services/Triples/Modes.antt =====
-- What faults a schedule may hold, and what is left of that when an exception has been met.
use distributed_code_executi.Common.{◌≡◌, refl, List, [], ◌∷◌}
use distributed_code_executi.Services.Runtime.{
  Fault, Exception, calm, refused, lost, killed, service_failed, bad_json, key_violation,
}

pub data Mode : Type 0 where
  any once quiet : Mode

abbrev pub AllCalm : List Fault → Type 0
AllCalm [] = Unit {0}
AllCalm (calm ∷ fs) = AllCalm fs
AllCalm (f ∷ fs) = ⊥

abbrev pub AtMostOne : List Fault → Type 0
AtMostOne [] = Unit {0}
AtMostOne (calm ∷ fs) = AtMostOne fs
AtMostOne (f ∷ fs) = AllCalm fs

abbrev pub Allowed : Mode → List Fault → Type 0
Allowed any fs = Unit {0}
Allowed once fs = AtMostOne fs
Allowed quiet fs = AllCalm fs

-- What is left of a mode when an exception has been met.
abbrev pub spent : Mode → Exception → Mode
spent once service_failed = quiet
spent m e = m

pub AllCalm-AtMostOne : (fs : List Fault) → AllCalm fs → AtMostOne fs
AllCalm-AtMostOne [] h = tt
AllCalm-AtMostOne (calm ∷ fs) h = AllCalm-AtMostOne fs h
AllCalm-AtMostOne (refused ∷ fs) h = absurd h
AllCalm-AtMostOne (lost ∷ fs) h = absurd h
AllCalm-AtMostOne (killed ∷ fs) h = absurd h

pub Allowed-spent :
    (m : Mode) (e : Exception) (fs : List Fault) → Allowed (spent m e) fs → Allowed m fs
Allowed-spent any e fs h = tt
Allowed-spent once service_failed fs h = AllCalm-AtMostOne fs h
Allowed-spent once bad_json fs h = h
Allowed-spent once key_violation fs h = h
Allowed-spent quiet e fs h = h

pub Allowed-spent_twice :
    (m : Mode) (e e' : Exception) (fs : List Fault)
    → Allowed (spent (spent m e) e') fs
    → Allowed (spent m e') fs
Allowed-spent_twice any e e' fs h = tt
Allowed-spent_twice once service_failed service_failed fs h = h
Allowed-spent_twice once service_failed bad_json fs h = AllCalm-AtMostOne fs h
Allowed-spent_twice once service_failed key_violation fs h = AllCalm-AtMostOne fs h
Allowed-spent_twice once bad_json e' fs h = h
Allowed-spent_twice once key_violation e' fs h = h
Allowed-spent_twice quiet e e' fs h = h

pub spent-key_violation : (m : Mode) → spent m key_violation ≡ m
spent-key_violation any = refl
spent-key_violation once = refl
spent-key_violation quiet = refl
