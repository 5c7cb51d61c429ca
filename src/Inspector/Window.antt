-- ===== src/Inspector/Window.antt =====
-- What the history holds.
use hexbuffer_proxy.Prelude.{
  ℕ, zero, suc, ◌-◌, ◌≤◌, ◌<◌, ◌≡◌, refl, sym, ap, ◌∙◌, inl, inr, List, [], ◌∷◌, ◌++◌, append-nil,
  length, length-append, length-drop, drop, drop-append_le, leb, leb→le, arith, Bool-cases,
  if◌then◌else◌,
}
use hexbuffer_proxy.Inspector.Traffic.{TrafficRecord, App, record_traffic}

module _ {ℓ} {A : Type ℓ} where
  -- The last `n` elements, or all.
  abbrev pub last : ℕ → List A → List A
  last n xs = drop (length xs - n) xs

  drop_one : (n : ℕ) (xs : List A) → drop 1 (drop n xs) ≡ drop (suc n) xs
  drop_one zero xs = refl
  drop_one (suc n) [] = refl
  drop_one (suc n) (x ∷ xs) = drop_one n xs

-- From one state to the next, `new` records are sent, and a history that is the last hundred of some records is the
-- last hundred of them and the new ones behind.
pub record Keeps (history sent history' sent' : List TrafficRecord) : Type 0 where
  pub new : List TrafficRecord
  pub all : sent' ≡ sent ++ new
  pub window :
      (acc : List TrafficRecord) → history ≡ last 100 acc → history' ≡ last 100 (acc ++ new)

last-push :
    (since : List TrafficRecord) (r : TrafficRecord)
    → (if leb 100 (length (last 100 since)) then drop 1 (last 100 since) else last 100 since)
        ++ r ∷ []
      ≡ last 100 (since ++ r ∷ [])
last-push since r =
    let n = length since in
    let grown = since ++ r ∷ [] in
    elim (Bool-cases (leb 100 (length (last 100 since)))) [
      | inl is_full ↦
          let enough : 100 ≤ n =
            omega
              (arith, leb→le 100 (length (last 100 since)) is_full, length-drop (n - 100) since) in
          let one_less : suc (n - 100) ≡ length grown - 100 =
            omega (arith, length-append since (r ∷ [])) in
          rw is_full (
            ap (λ l. l ++ r ∷ []) (drop_one (n - 100) since)
            ∙ sym (drop-append_le (suc (n - 100)) since (r ∷ []) (omega arith))
            ∙ ap (λ k. drop k grown) one_less)
      | inr room ↦
          let few : n < 100 = ground (arith, length-drop (n - 100) since) in
          let no_less : n - 100 ≡ length grown - 100 =
            omega (arith, length-append since (r ∷ [])) in
          rw room (
            sym (drop-append_le (n - 100) since (r ∷ []) (omega arith))
            ∙ ap (λ k. drop k grown) no_less)
    ]

-- `record_traffic` sends its record, and the history moves on by it.
pub record_traffic-Keeps :
    (r : TrafficRecord) (app : App)
    → let app' = record_traffic r app in Keeps app.history app.sent app'.history app'.sent
unfolding record_traffic
record_traffic-Keeps r app = record {
  new = r ∷ [];
  all = refl;
  window =
      λ acc e. ap (λ h. (if leb 100 (length h) then drop 1 h else h) ++ r ∷ []) e ∙ last-push acc r;
}

-- Where nothing is sent and the history stays.
pub no_more-Keeps : {history sent : List TrafficRecord} → Keeps history sent history sent
no_more-Keeps {history} {sent} = record {
  new = [];
  all = sym (append-nil sent);
  window = λ acc e. e ∙ ap (last 100) (sym (append-nil acc));
}

-- What was sent from one state to the next.
abbrev pub sent_between : List TrafficRecord → List TrafficRecord → List TrafficRecord
sent_between sent sent' = drop (length sent) sent'

drop_past : (xs ys : List TrafficRecord) → drop (length xs) (xs ++ ys) ≡ ys
drop_past [] ys = refl
drop_past (x ∷ xs) ys = drop_past xs ys

pub Keeps-last :
    {history sent history' sent' : List TrafficRecord} (acc : List TrafficRecord)
    → Keeps history sent history' sent'
    → history ≡ last 100 acc
    → history' ≡ last 100 (acc ++ sent_between sent sent')
Keeps-last {sent = sent} acc keeps e =
    keeps.window acc e
    ∙ ap (λ l. last 100 (acc ++ l))
        (sym (ap (drop (length sent)) keeps.all ∙ drop_past sent keeps.new))

pub length-last : (kept acc : List TrafficRecord) → kept ≡ last 100 acc → length kept ≤ 100
length-last kept acc e = rw e (omega (arith, length-drop (length acc - 100) acc))
