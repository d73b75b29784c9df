-- ===== src/Server/Pool.antt =====
-- The pool of readers: whichever reader it gives, it is as good as new.
use package_index.Base.{ℕ, Bool, true, false, List, [], ◌∷◌, ◌≡◌, refl, max, All}
use package_index.Server.Bufio.{Reader, BufioReaderPool, get, put, new_reader_size, reset}

-- Every pooled reader has the size that the pool makes readers with.
abbrev pub IsUniform : BufioReaderPool → Type 0
IsUniform p = All (λ (b : Reader). b.size ≡ max 16 p.buf_size) p.pool

get-new_in :
    (chosen : Bool) (n : ℕ) (bs : List Reader)
    → IsUniform (record { buf_size = n; pool = bs })
    → let r = get chosen (record { buf_size = n; pool = bs }) in
      (r.0 ≡ new_reader_size n) × IsUniform r.1 × (r.1.buf_size ≡ n)
unfolding get new_reader_size reset
get-new_in chosen n [] u = (refl, u, refl)
get-new_in true n (b ∷ bs) u = (λ i. record { size = u.0 i; buffered = [] }, u.1, refl)
get-new_in false n (b ∷ bs) u = (refl, u, refl)

-- `Get` gives an empty reader of the pool's size, whether it is a pooled one or a new one.
pub get-new :
    (chosen : Bool) (p : BufioReaderPool)
    → IsUniform p
    → ((get chosen p).0 ≡ new_reader_size p.buf_size)
      × IsUniform (get chosen p).1
      × ((get chosen p).1.buf_size ≡ p.buf_size)
get-new chosen p u = get-new_in chosen p.buf_size p.pool u

-- `Put` keeps the pool uniform.
pub put-IsUniform :
    (b : Reader) (p : BufioReaderPool)
    → b.size ≡ max 16 p.buf_size
    → IsUniform p
    → IsUniform (put b p)
unfolding put reset
put-IsUniform b p h u = (h, u)
