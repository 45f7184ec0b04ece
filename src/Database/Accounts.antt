-- ===== src/Database/Accounts.antt =====
-- What the record holds of one request, and what that says in the abstract.
use rust_playground.Base.{
  ℕ, ◌≡◌, refl, sym, subst, true, Option, none, some, Map, insert, none≢some, some-injective,
}
use rust_playground.Database.{How, abandoned_how, how_code, Row, EndGuardInner, State}

-- The abstract view: a request runs, and then it is over in some way.
pub data Fate : Type 0 where
  running : Fate
  over : ℕ → Fate

pub data FateStep (f g : Map Fate) : Type 0 where
  stays : ((k : ℕ) → g k ≡ f k) → FateStep f g
  begins : (id : ℕ) → f id ≡ none → ((k : ℕ) → g k ≡ insert id running f k) → FateStep f g
  finishes :
      (id : ℕ) (how : How)
      → f id ≡ some running
      → ((k : ℕ) → g k ≡ insert id (over (how_code how)) f k)
      → FateStep f g

-- What a row says by itself.
abbrev pub recorded : Option ℕ → Fate
recorded none = running
recorded (some c) = over c

abbrev pub fate_of : Option Row → Option How → Option Fate
fate_of none e = none
fate_of (some r) none = some (recorded r.how)
fate_of (some r) (some how) = some (over (how_code how))

-- The fate of a request: what is about to be recorded of it, or else what is recorded.
abbrev pub fates : State → Map Fate
fates s k = fate_of (s.rows k) (s.ending k)

-- One request: not there; running, with a guard; about to be ended; or ended.
pub data Account (id : ℕ) : Option Row → Option EndGuardInner → Option How → Type 0 where
  unused : Account id none none none
  held :
      {r : Row} {g : EndGuardInner}
      → r.how ≡ none
      → g.id ≡ id
      → g.has_handle ≡ true
      → g.how ≡ abandoned_how
      → Account id (some r) (some g) none
  to_end : {r : Row} {how : How} → r.how ≡ none → Account id (some r) none (some how)
  ended : {r : Row} {c : ℕ} → r.how ≡ some c → Account id (some r) none none

abbrev pub IsAccounted : State → Type 0
IsAccounted s = (k : ℕ) → Account k (s.rows k) (s.guards k) (s.ending k)

pub unused-ending :
    {k : ℕ} {r : Option Row} {g : Option EndGuardInner} {e : Option How}
    → Account k r g e
    → r ≡ none
    → e ≡ none
unused-ending unused h = refl
unused-ending (held a b c d) h = refl
unused-ending (to_end a) h = absurd (none≢some (sym h))
unused-ending (ended a) h = refl

-- What there is where a guard is held.
pub record Held (k : ℕ) (r : Option Row) (g : EndGuardInner) (e : Option How) : Type 0 where
  pub row : Row
  pub has_row : r ≡ some row
  pub is_open : row.how ≡ none
  pub own : g.id ≡ k
  pub handle : g.has_handle ≡ true
  pub not_ending : e ≡ none
  pub abandons : g.how ≡ abandoned_how

pub Held-of :
    {k : ℕ} {r : Option Row} {g : Option EndGuardInner} {e : Option How} {x : EndGuardInner}
    → Account k r g e
    → g ≡ some x
    → Held k r x e
Held-of unused h = absurd (none≢some h)
Held-of {k} {x} (held {r} a b c d) h =
    subst (λ g. Held k (some r) g none) (some-injective h)
      (record {
        row = r;
        has_row = refl;
        is_open = a;
        own = b;
        handle = c;
        not_ending = refl;
        abandons = d;
      })
Held-of (to_end a) h = absurd (none≢some h)
Held-of (ended a) h = absurd (none≢some h)

-- What there is where a request is about to be ended.
pub record Ends (r : Option Row) (g : Option EndGuardInner) : Type 0 where
  pub row : Row
  pub has_row : r ≡ some row
  pub no_guard : g ≡ none

pub Ends-of :
    {k : ℕ} {r : Option Row} {g : Option EndGuardInner} {e : Option How} {how : How}
    → Account k r g e
    → e ≡ some how
    → Ends r g
Ends-of unused h = absurd (none≢some h)
Ends-of (held a b c d) h = absurd (none≢some h)
Ends-of (to_end {r} a) h = record { row = r; has_row = refl; no_guard = refl }
Ends-of (ended a) h = absurd (none≢some h)
