-- ===== src/Dex/Lasting.antt =====
-- What the calls of a method show stays seen.
use android_appsec_assessor.Prelude.{◌<◌, ◌≡◌, refl, String, Bool, true, ◌||◌, ◌∷◌, length, arith}
use android_appsec_assessor.Errors.{Result, ok, err, ◌>>=◌}
use android_appsec_assessor.Dex.Signals.{Observed}
use android_appsec_assessor.Dex.Bridges.{IsKept}

-- A property that no call takes back.
pub record IsLasting (P : Observed → Type 0) : Type 0 where
  pub kept : IsKept P
  pub turned :
      (on : Bool) (s : Observed)
      → P s
      → P (record s { javascript_enabled = s.javascript_enabled || on })
  pub added : (s : Observed) → P s → P (record s { javascript_bridge = true })
  pub opened :
      (scheme : String) (s : Observed)
      → P s
      → P (record s { remote_web_content = scheme ∷ s.remote_web_content })

abbrev pub IsEnabled : Observed → Type 0
IsEnabled s = s.javascript_enabled ≡ true

abbrev pub IsBridged : Observed → Type 0
IsBridged s = s.javascript_bridge ≡ true

abbrev pub IsLoaded : Observed → Type 0
IsLoaded s = 0 < length s.remote_web_content

pub IsEnabled-IsLasting : IsLasting IsEnabled
IsEnabled-IsLasting = record {
  kept = record {
    noted = λ rule confidence indicators s other h. h;
    filled = λ generations s h. h;
    correlated = λ material s h. h;
  };
  turned = λ on s h. ground (arith, h);
  added = λ s h. h;
  opened = λ scheme s h. h;
}

pub IsBridged-IsLasting : IsLasting IsBridged
IsBridged-IsLasting = record {
  kept = record {
    noted = λ rule confidence indicators s other h. h;
    filled = λ generations s h. h;
    correlated = λ material s h. h;
  };
  turned = λ on s h. h;
  added = λ s h. refl;
  opened = λ scheme s h. h;
}

pub IsLoaded-IsLasting : IsLasting IsLoaded
IsLoaded-IsLasting = record {
  kept = record {
    noted = λ rule confidence indicators s other h. h;
    filled = λ generations s h. h;
    correlated = λ material s h. h;
  };
  turned = λ on s h. h;
  added = λ s h. h;
  opened = λ scheme s h. omega arith;
}

-- The end of a chain, and what follows it.
end_of-one :
    {B C D : Type 0} (q : Result B) (h : B → C) (g : C → Result D)
    → (q >>= λ b. g (h b)) ≡ ((q >>= λ b. ok (h b)) >>= g)
end_of-one (ok b) h g = refl
end_of-one (err e) h g = refl

pub end_of-two :
    {A B C D : Type 0} (r : Result A) (f : A → Result B) (h : A → B → C) (g : C → Result D)
    → (r >>= λ a. (f a >>= λ b. g (h a b))) ≡ ((r >>= λ a. (f a >>= λ b. ok (h a b))) >>= g)
end_of-two (ok a) f h g = end_of-one (f a) (h a) g
end_of-two (err e) f h g = refl
