-- ===== src/Crdt/Document/Gone.antt =====
-- About the ids whose character is marked as deleted, in client/src/crdt/CrdtDocument.ts.
use syncode.Base.{
  ℕ, zero, suc, ◌≡◌, refl, Bool, true, false, ◌&&◌, ◌||◌, some, List, [], ◌∷◌, arith, map,
  insert_at,
}
use syncode.Crdt.Id.{CrdtId, id_eq, id_eq_iff, id_eq_refl}
use syncode.Crdt.Document.{
  CrdtChar, CrdtDocument, insert, delete, insert_char, find_char_index, has_char, is_live_at,
  apply_op,
}
use syncode.Crdt.Document.Forest.Present.{present, has_char-present, Distinct}
use syncode.Crdt.Document.Deletion.{tick, mark_deleted-map}
use syncode.Crdt.Document.Convergence.{apply_op-insert, apply_op-delete}

-- A character with the id is marked as deleted.
unfoldable pub is_gone : CrdtId → List CrdtChar → Bool
is_gone id [] = false
is_gone id (c ∷ cs) = (id_eq c.id id && c.is_deleted) || is_gone id cs

is_gone-insert_at :
    (id : CrdtId) (i : ℕ) (c : CrdtChar) (cs : List CrdtChar)
    → is_gone id (insert_at i c cs) ≡ ((id_eq c.id id && c.is_deleted) || is_gone id cs)
unfolding is_gone
is_gone-insert_at id zero c cs = refl
is_gone-insert_at id (suc i) c [] = refl
is_gone-insert_at id (suc i) c (x ∷ cs) = ground (arith, is_gone-insert_at id i c cs)

is_gone-tick :
    (id j : CrdtId) (cs : List CrdtChar)
    → is_gone id (map (tick j) cs) ≡ ((id_eq j id && present id cs) || is_gone id cs)
unfolding is_gone present
is_gone-tick id j [] = ground arith
is_gone-tick id j (c ∷ cs) = ground (
  arith,
  is_gone-tick id j cs,
  id_eq_iff c.id id,
  id_eq_iff c.id j,
  id_eq_iff j id,
  id_eq_refl id,
)

pub is_gone-insert :
    (id : CrdtId) (c : CrdtChar) (d : CrdtDocument)
    → has_char c.id d.chars ≡ false
    → is_gone id (apply_op (insert c) d).chars
      ≡ ((id_eq c.id id && c.is_deleted) || is_gone id d.chars)
unfolding insert_char
is_gone-insert id c d h = rw (apply_op-insert d c h) (is_gone-insert_at id _ c d.chars)

pub is_gone-delete :
    (id j : CrdtId) (d : CrdtDocument)
    → Distinct d.chars
    → has_char j d.chars ≡ true
    → is_gone id (apply_op (delete j) d).chars ≡ (id_eq j id || is_gone id d.chars)
is_gone-delete id j d u h =
    rw (apply_op-delete d j, mark_deleted-map j d.chars u)
      (ground (arith, is_gone-tick id j d.chars, has_char-present j d.chars, id_eq_iff j id))

-- A character that is found and not live is gone.
pub found-gone :
    (id : CrdtId) (i : ℕ) (cs : List CrdtChar)
    → find_char_index id cs ≡ some i
    → is_live_at i cs ≡ false
    → is_gone id cs ≡ true
unfolding find_char_index is_gone
found-gone id i [] h l = ground arith
found-gone id zero (c ∷ cs) h l = ground arith
found-gone id (suc i) (c ∷ cs) h l = ground (arith, found-gone id i cs)
