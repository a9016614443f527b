-- ===== src/Tests.antt =====
-- Sample data for the instances of the theorems: floats as thousandths, accounts, a route, a world.
mod RouterPicks
mod RouterRules
mod ProxyRuns
mod ProxyRoutes
mod Services
mod Renewal
mod Bridges
mod Catalogs
mod Gateways
use openllms.Prelude.{
  ℕ, suc, ◌+◌, ◌*◌, ◌/◌, ◌≡◌, ◌⊎◌, List, [], ◌∷◌, Option, none, some, Bool, true, false, not, arith,
  Text, lit,
}
use openllms.Prelude.Int.{ℤ, pos, negsuc, sub_ℕ, pos_part, neg_part, ltb_ℤ, ◌+ℤ◌, ◌-ℤ◌}
use openllms.Number.{Float, Time}
use openllms.Account.{Account, Route}
use openllms.Router.Presets.{Strategy}
use openllms.Router.Selector.{Selector}

pub less_irrefl : (x : ℤ) → ltb_ℤ x x ≡ false
less_irrefl x = ground arith

pub less_trans : (x y z : ℤ) → ltb_ℤ x y ≡ true → ltb_ℤ y z ≡ true → ltb_ℤ x z ≡ true
less_trans x y z h k = ground arith

pub less-cotrans :
    (x y z : ℤ) → Path Bool false false → ltb_ℤ x z ≡ true → (ltb_ℤ x y ≡ true) ⊎ (ltb_ℤ y z ≡ true)
less-cotrans x y z n h = ground arith

abbrev pub thousandths : ℕ → ℕ → ℤ
thousandths n d = pos (n * 1000 / d)

-- A float interface whose numbers are thousandths, none of them NaN.
abbrev pub scaled : Float
scaled = record {
  F = ℤ;
  lt = ltb_ℤ;
  le = λ x y. not (ltb_ℤ y x);
  add = ◌+ℤ◌;
  sub = ◌-ℤ◌;
  mul = λ x y.
      sub_ℕ ((pos_part x * pos_part y + neg_part x * neg_part y) / 1000)
        ((pos_part x * neg_part y + neg_part x * pos_part y) / 1000);
  div = λ x y. sub_ℕ (pos_part x * 1000 / pos_part y) (neg_part x * 1000 / pos_part y);
  ratio = thousandths;
  of_int = λ z. sub_ℕ (pos_part z * 1000) (neg_part z * 1000);
  to_int = λ x. sub_ℕ (pos_part x / 1000) (neg_part x / 1000);
  neg_infinity = negsuc 1000000000000;
  is_nan = λ _. false;
  lt_irrefl = less_irrefl;
  lt_trans = less_trans;
  lt_cotrans = less-cotrans;
  le_lt = λ x y _ _ i. not (ltb_ℤ y x);
}

abbrev pub seat : ℕ → Text → Option ℤ → Option Time → ℤ → Account ℤ
seat id vendor pct reset weight = record {
  id = id;
  project_id = 1;
  vendor = vendor;
  name = lit "seat";
  auth_type = lit "api_key";
  infisical_path = [];
  base_url = [];
  health = lit "healthy";
  default_model = [];
  weight = weight;
  position = pos 0;
  quota_remaining_pct = pct;
  quota_reset_at = reset;
  quota_updated_at = none;
  quota_5h_remaining_pct = none;
  quota_5h_reset_at = none;
  quota_7d_remaining_pct = none;
  quota_7d_reset_at = none;
}

abbrev pub first : Account ℤ
first = seat 11 (lit "openai") (some (pos 40000)) (some 900) (pos 3)

abbrev pub second : Account ℤ
second = seat 12 (lit "openai") (some (pos 70000)) (some 500) (pos 0)

abbrev pub third : Account ℤ
third = seat 13 (lit "openai") (some (pos 70000)) (some 300) (pos 2)

abbrev pub seats : List (Account ℤ)
seats = first ∷ second ∷ third ∷ []

abbrev pub others : List (Account ℤ)
others = second ∷ third ∷ []

-- Seat 12 failed softly a second before time 2000000000.
abbrev pub selector : Selector
selector = record { rr = (7, 4) ∷ []; rand = 99; soft_fail = (12, 1000000000) ∷ [] }

abbrev pub route : Strategy → Route ℤ
route strategy = record {
  id = 7;
  project_id = 1;
  slug = lit "main";
  strategy = strategy;
  config = none;
  default_model = lit "gpt-5";
}
