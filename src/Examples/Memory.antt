-- ===== src/Examples/Memory.antt =====
-- A memory with two wait lists: links 5 and 8 between the sentinels 1 and 2, link 6 between the
-- sentinels 3 and 4. The links 7 and 9 are in no list, and no address from 10 on holds a link.
use embedded_async.Base.{ℕ, refl, List, [], ◌∷◌, arith, ◌==◌, if◌then◌else◌, ltb, Disjoint}
use embedded_async.Intrusive.Links.{Heap, LinkList}
use embedded_async.Intrusive.Links.Invariant.{IsList, Valid, nodes}
use embedded_async.Intrusive.Links.Lifetime.{Fresh}

abbrev pub table : List (ℕ × ℕ) → ℕ → ℕ
table [] a = 0
table ((k, v) ∷ t) a = if a == k then v else table t a

abbrev pub heap : Heap
heap = record {
  live = λ a. ltb a 10;
  owner = table ((5, 15) ∷ (8, 18) ∷ (6, 16) ∷ []);
  prev = table ((5, 1) ∷ (8, 5) ∷ (2, 8) ∷ (6, 3) ∷ (4, 6) ∷ []);
  next = table ((1, 5) ∷ (5, 8) ∷ (8, 2) ∷ (3, 6) ∷ (6, 4) ∷ []);
}

abbrev pub first : LinkList
first = record { head = 1; tail = 2 }

abbrev pub second : LinkList
second = record { head = 3; tail = 4 }

abbrev pub local : LinkList
local = record { head = 20; tail = 21 }

pub first-IsList : IsList heap first (5 ∷ 8 ∷ [])
first-IsList = record {
  valid = λ a m. ground arith;
  distinct = ground arith;
  chain = ground arith;
  front = refl;
  back = refl;
}

pub second-IsList : IsList heap second (6 ∷ [])
second-IsList = record {
  valid = λ a m. ground arith;
  distinct = ground arith;
  chain = ground arith;
  front = refl;
  back = refl;
}

pub apart : Disjoint (nodes first (5 ∷ 8 ∷ [])) (nodes second (6 ∷ []))
apart a m = ground arith

pub local-Fresh : Fresh heap local
local-Fresh = record { head = ground arith; tail = ground arith; apart = omega arith }

pub free-Valid : Valid heap 7
free-Valid = ground arith
