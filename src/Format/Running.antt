-- ===== src/Format/Running.antt =====
-- An operation of the device as one of the volume.
use ferris_file_system.Prelude.{◌≡◌, refl}
use ferris_file_system.Effect.{Op, ok, err, panic}
use ferris_file_system.Effect.Returns.{Returns, returns}
use ferris_file_system.Format.{Volume, on_device}

pub on_device_lem :
    {D A : Type 0} {P : A → D → Type 0} (op : Op D A) (v : Volume D)
    → Returns P (op v.device)
    → Returns (λ a v'. (d : D) × (v' ≡ record v { device = d }) × P a d) (on_device op v)
unfolding on_device
on_device_lem {D = D} {P = P} op v p = passed p
  where
    passed :
        {run : _}
        → Returns P run
        → Returns
            (λ a v'. (d : D) × (v' ≡ record v { device = d }) × P a d)
            (elim run [
              | ok a d ↦ ok a (record v { device = d })
              | err e d ↦ err e (record v { device = d })
              | panic ↦ panic
            ])
    passed (returns p) = returns (_, refl, p)
