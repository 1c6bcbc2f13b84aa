-- ===== src/Tests/Queue.antt =====
-- A workqueue as two lists, the keys that wait and the keys that are being processed, and keys as
-- namespace and name with a slash.
use trivy_epss_kev_exporter.Base.{
  true, false, List, [], ◌∷◌, Option, none, some, ◌≡◌, ◌≢◌, refl, arith, ite, if_pos, ap, sym, ◌∙◌,
  subst, if◌then◌else◌, Bool-cases, length, ◌≤◌, ◌<◌, inl, inr, Text, text_discrete,
}
use trivy_epss_kev_exporter.Strings.{cut}
use trivy_epss_kev_exporter.Controller.{WorkQueue, KeyCodec}
use trivy_epss_kev_exporter.System.Free.{CountedQueue}
use trivy_epss_kev_exporter.Controller.Scope.{is_one_of}

pub record Queue : Type 0 where
  pub queued : List Text
  pub busy : List Text

abbrev pub without : Text → List Text → List Text
without k [] = []
without k (t ∷ ts) = ite (text_discrete t k) (without k ts) (t ∷ without k ts)

pub one_of-without :
    (k q : Text) (ts : List Text)
    → is_one_of q (without k ts) ≡ ite (text_discrete k q) false (is_one_of q ts)
one_of-without k q [] = ground arith
one_of-without k q (t ∷ ts) = ground (arith, one_of-without k q ts)

-- The head, unless it is being processed.
abbrev pub next : List Text → List Text → Option (Text × Queue)
next [] busy = none
next (t ∷ ts) busy =
    if is_one_of t busy then none else some (t, record { queued = without t ts; busy = t ∷ busy })

pub next_inv :
    (queued busy : List Text) (k : Text) (s' : Queue)
    → next queued busy ≡ some (k, s')
    → (is_one_of k queued ≡ true)
      × (is_one_of k busy ≡ false)
      × ((q : Text) → k ≢ q → is_one_of q s'.queued ≡ is_one_of q queued)
      × ((q : Text) → is_one_of q s'.busy ≡ ite (text_discrete k q) true (is_one_of q busy))
next_inv [] busy k s' h = absurd (cc)
next_inv (t ∷ ts) busy k s' h = elim (Bool-cases (is_one_of t busy)) [
  | inl b ↦ absurd (cc (rw b at h))
  | inr free ↦
      let h' : some (t, record { queued = without t ts; busy = t ∷ busy }) ≡ some (k, s') =
        rw free at h in
      let first : t ≡ k = ap (λ o. elim o [ none ↦ t | some (x, rest) ↦ x ]) h' in
      let rest : record { queued = without t ts; busy = t ∷ busy } ≡ s' =
        ap (λ o. elim o [ none ↦ s' | some (x, rest) ↦ rest ]) h' in
      subst
        (λ x.
          (is_one_of x (t ∷ ts) ≡ true)
          × (is_one_of x busy ≡ false)
          × ((q : Text) → x ≢ q → is_one_of q s'.queued ≡ is_one_of q (t ∷ ts))
          × ((q : Text) → is_one_of q s'.busy ≡ ite (text_discrete x q) true (is_one_of q busy)))
        first
        (
          if_pos (text_discrete t t) refl true (is_one_of t ts),
          free,
          (λ q n.
              ap (λ r. is_one_of q r.queued) (sym rest) ∙ ground (arith, one_of-without t q ts)),
          (λ q. ap (λ r. is_one_of q r.busy) (sym rest)),
        )
]

instance abbrev pub list_queue : WorkQueue Queue
list_queue = record {
  add = λ k s. record s { queued = k ∷ s.queued };
  get = λ s. next s.queued s.busy;
  done = λ k s. record s { busy = without k s.busy };
  add_rate_limited = λ k s. record s { queued = k ∷ s.queued };
  forget = λ k s. s;
  waiting = λ q s. is_one_of q s.queued;
  processing = λ q s. is_one_of q s.busy;
  waiting-add = λ k q s. refl;
  waiting-get = λ k q s s' h. (next_inv s.queued s.busy k s' h).2 q;
  waiting_of_get = λ k s s' h. (next_inv s.queued s.busy k s' h).0;
  waiting-done = λ k q s. refl;
  waiting-add_rate_limited = λ k q s. refl;
  waiting-forget = λ k q s. refl;
  processing-add = λ k q s. refl;
  processing_of_get = λ k s s' h. (next_inv s.queued s.busy k s' h).1;
  processing-get = λ k q s s' h. (next_inv s.queued s.busy k s' h).3 q;
  processing-done = λ k q s. one_of-without k q s.busy;
  processing-add_rate_limited = λ k q s. refl;
  processing-forget = λ k q s. refl;
}

-- The text before a slash; the whole key without one is in the namespace "".
abbrev pub namespace_of : Text → Option Text
namespace_of key = some (elim (cut b'/' key) [ none ↦ [] | some (before, after) ↦ before ])

instance abbrev pub slash_codec : KeyCodec
slash_codec = record { split_key = namespace_of }

length-without : (k : Text) (ts : List Text) → length (without k ts) ≤ length ts
length-without k [] = omega arith
length-without k (t ∷ ts) = elim (text_discrete t k) [
  | yes p ↦ ground (arith, length-without k ts)
  | no n ↦ ground (arith, length-without k ts)
]

next-shorter :
    (queued busy : List Text) (k : Text) (s' : Queue)
    → next queued busy ≡ some (k, s')
    → length s'.queued < length queued
next-shorter [] busy k s' h = absurd (cc)
next-shorter (t ∷ ts) busy k s' h = elim (Bool-cases (is_one_of t busy)) [
  | inl b ↦ absurd (cc (rw b at h))
  | inr free ↦
      let h' : some (t, record { queued = without t ts; busy = t ∷ busy }) ≡ some (k, s') =
        rw free at h in
      let rest : record { queued = without t ts; busy = t ∷ busy } ≡ s' =
        ap (λ o. elim o [ none ↦ s' | some (x, rest) ↦ rest ]) h' in
      subst (λ r. length r.queued < length (t ∷ ts)) rest (ground (arith, length-without t ts))
]

next_of_free :
    (queued busy : List Text)
    → 0 < length queued
    → ((key : Text) → is_one_of key busy ≡ false)
    → (k : Text) × (s' : Queue) × (next queued busy ≡ some (k, s'))
next_of_free [] busy some_wait free = absurd (omega arith)
next_of_free (t ∷ ts) busy some_wait free =
    (t, record { queued = without t ts; busy = t ∷ busy }, rw (free t))

none_of_empty :
    (queued : List Text) → length queued ≡ 0 → (key : Text) → is_one_of key queued ≡ false
none_of_empty [] e key = refl
none_of_empty (t ∷ ts) e key = absurd (omega arith)

pub counted : CountedQueue Queue
counted = record {
  pending = λ s. length s.queued;
  pending-add = λ k s. omega arith;
  pending-add_rate_limited = λ k s. omega arith;
  pending-done = λ k s. refl;
  pending-forget = λ k s. refl;
  pending-get = λ k s s' h. next-shorter s.queued s.busy k s' h;
  get_of_pending = λ s w free. next_of_free s.queued s.busy w free;
  none_pending = λ s e. none_of_empty s.queued e;
}
