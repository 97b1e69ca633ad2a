-- ===== src/Entry/Stages.antt =====
-- cmd/main.go: runs that do not start the manager, and runs that start it last.
use openshift_upgrade_accele.Prelude.{◌≡◌, refl, Bool, true, false, ◌||◌, List, [], ◌∷◌}
use openshift_upgrade_accele.Entry.{
  Call, start, Ending, continues, exits, panics, Run, and_then, ◌>>=◌,
}

module _ {Watcher : Type 0} where
  abbrev pub is_start : Call Watcher → Bool
  is_start start = true
  is_start _ = false

  abbrev pub is_started : List (Call Watcher) → Bool
  is_started [] = false
  is_started (c ∷ h) = is_start c || is_started h

  -- A run that does not start the manager, with the value and the calls that it goes on with.
  pub record Early {A : Type 0} (m : Run Watcher A) (value : List (Call Watcher) → A)
      (after : List (Call Watcher) → List (Call Watcher)) : Type 0 where
    pub quiet : (h : List (Call Watcher)) → is_started h ≡ false → is_started (m h).1 ≡ false
    pub reached :
        (h : List (Call Watcher)) (a : A)
        → (m h).0 ≡ continues a
        → (a ≡ value h) × ((m h).1 ≡ after h)

  -- A run that starts the manager last, if it does, with the calls that were made by then.
  pub record Starts {A : Type 0} (m : Run Watcher A)
      (after : List (Call Watcher) → List (Call Watcher)) : Type 0 where
    pub reached :
        (h : List (Call Watcher))
        → is_started h ≡ false
        → is_started (m h).1 ≡ true
        → (m h).1 ≡ after h
    pub ends : (h : List (Call Watcher)) (a : A) → (m h).0 ≡ continues a → is_started (m h).1 ≡ true

  passed :
      {A B : Type 0} (e : Ending A) (h : List (Call Watcher)) (f : A → Run Watcher B)
      → is_started h ≡ false
      → is_started (and_then e f h).1 ≡ true
      → (a : A) × (e ≡ continues a)
  passed (continues a) h f p q = (a, refl)
  passed (exits code) h f p q = absurd (cc)
  passed panics h f p q = absurd (cc)

  then-quiet :
      {A B : Type 0} (e : Ending A) (h : List (Call Watcher)) (f : A → Run Watcher B)
      → is_started h ≡ false
      → ((a : A) → is_started (f a h).1 ≡ false)
      → is_started (and_then e f h).1 ≡ false
  then-quiet (continues a) h f p q = q a
  then-quiet (exits code) h f p q = p
  then-quiet panics h f p q = p

  then-continues :
      {A B : Type 0} (e : Ending A) (h : List (Call Watcher)) (f : A → Run Watcher B) {b : B}
      → (and_then e f h).0 ≡ continues b
      → (a : A) × (e ≡ continues a)
  then-continues (continues a) h f r = (a, refl)
  then-continues (exits code) h f r = absurd (cc)
  then-continues panics h f r = absurd (cc)

  pub Starts-bind :
      {A B : Type 0} {m : Run Watcher A} {f : A → Run Watcher B} {value : List (Call Watcher) → A}
      {after : List (Call Watcher) → List (Call Watcher)}
      {later : A → List (Call Watcher) → List (Call Watcher)}
      → Early m value after
      → ((a : A) → Starts (f a) (later a))
      → Starts (m >>= f) (λ h. later (value h) (after h))
  Starts-bind {m = m} {f = f} {value = value} {after = after} {later = later} p q = record {
    reached = λ h quiet started.
        let (a, e) = passed (m h).0 (m h).1 f (p.quiet h quiet) started in
        let (same, calls) = p.reached h a e in
        let here : is_started (f a (m h).1).1 ≡ true = rw e at started in
        let there : (f a (m h).1).1 ≡ later a (m h).1 =
          (q a).reached (m h).1 (p.quiet h quiet) here in
        rw (e, there, same, calls) refl;
    ends = λ h b r.
        let (a, e) = then-continues (m h).0 (m h).1 f r in
        let here : (f a (m h).1).0 ≡ continues b = rw e at r in rw e ((q a).ends (m h).1 b here);
  }

  pub Early-bind :
      {A B : Type 0} {m : Run Watcher A} {f : A → Run Watcher B} {value : List (Call Watcher) → A}
      {after : List (Call Watcher) → List (Call Watcher)} {value' : A → List (Call Watcher) → B}
      {after' : A → List (Call Watcher) → List (Call Watcher)}
      → Early m value after
      → ((a : A) → Early (f a) (value' a) (after' a))
      → Early (m >>= f) (λ h. value' (value h) (after h)) (λ h. after' (value h) (after h))
  Early-bind {m = m} {f = f} {value = value} {after = after} {value' = value'} {after' = after'} p
        q =
      record {
        quiet = λ h k.
            then-quiet (m h).0 (m h).1 f (p.quiet h k) (λ a. (q a).quiet (m h).1 (p.quiet h k));
        reached = λ h b r.
            let (a, e) = then-continues (m h).0 (m h).1 f r in
            let (same, calls) = p.reached h a e in
            let here : (f a (m h).1).0 ≡ continues b = rw e at r in
            let (there, more) = (q a).reached (m h).1 b here in
            (rw (there, same, calls) refl, rw (e, more, same, calls) refl);
      }
