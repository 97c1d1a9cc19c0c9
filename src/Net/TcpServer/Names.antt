-- ===== src/Net/TcpServer/Names.antt =====
-- The map of connections, and that the names of connections differ.
use simple_http_server.Common.{
  ℕ, ◌^◌, ◌≤◌, ◌<◌, ◌≡◌, refl, sym, ap, ◌∙◌, arith, List, [], ◌∷◌, ◌++◌, none, some, inl, inr,
  Bool-cases, ◌==◌, ==_iff, if◌then◌else◌, length, length-append, take_of_length-le,
}
use simple_http_server.Common.Bytes.{Bytes, codes, equal, equal_iff}
use simple_http_server.Common.Decimal.{decimal, decimal_inj, length-decimal}
use simple_http_server.Net.TcpServer.{Connection, TcpServer, find, put, erase, conn_name}

pub find-put :
    (n k : Bytes) (c : Connection) (m : List (Bytes × Connection))
    → find n (put k c m) ≡ (if equal k n then some c else find n m)
unfolding find put
find-put n k c [] = refl
find-put n k c ((j, d) ∷ m) =
    ground (arith, equal_iff k n, equal_iff j k, equal_iff j n, find-put n k c m)

pub find-erase :
    (n k : Bytes) (m : List (Bytes × Connection))
    → find n (erase k m) ≡ (if equal k n then none else find n m)
unfolding find erase
find-erase n k [] = ground arith
find-erase n k ((j, d) ∷ m) =
    ground (arith, equal_iff k n, equal_iff j k, equal_iff j n, find-erase n k m)

append_cancel : (xs ys zs : Bytes) → xs ++ ys ≡ xs ++ zs → ys ≡ zs
append_cancel [] ys zs e = e
append_cancel (x ∷ xs) ys zs e = append_cancel xs ys zs (cc)

-- An address with a port is 21 bytes at most; so nothing is cut off by the 64 bytes of `buf`.
pub conn_name_lem :
    (s : TcpServer) (id : ℕ)
    → length s.ip_port ≤ 21
    → id < 2 ^ 31
    → conn_name s id ≡ s.name ++ (codes "-" ++ (s.ip_port ++ (codes "#" ++ decimal id)))
unfolding conn_name
conn_name_lem s id short h =
    ap (λ t. s.name ++ t)
      (take_of_length-le 63 (codes "-" ++ (s.ip_port ++ (codes "#" ++ decimal id)))
        (omega (arith, length-append s.ip_port (codes "#" ++ decimal id), length-decimal id h)))

conn_name_inj :
    (s : TcpServer) (i j : ℕ)
    → length s.ip_port ≤ 21
    → i < 2 ^ 31
    → j < 2 ^ 31
    → conn_name s i ≡ conn_name s j
    → i ≡ j
conn_name_inj s i j short h k e =
    let whole = sym (conn_name_lem s i short h) ∙ e ∙ conn_name_lem s j short k in
    let behind = append_cancel (codes "-") _ _ (append_cancel s.name _ _ whole) in
    decimal_inj i j (omega arith) (omega arith)
      (append_cancel (codes "#") _ _ (append_cancel s.ip_port _ _ behind))

pub conn_name-equal :
    (s : TcpServer) (i j : ℕ)
    → length s.ip_port ≤ 21
    → i < 2 ^ 31
    → j < 2 ^ 31
    → equal (conn_name s i) (conn_name s j) ≡ (i == j)
conn_name-equal s i j short h k = elim (Bool-cases (i == j)) [
  | inl e ↦ rw e ((equal_iff _ _).1 (ap (conn_name s) ((==_iff i j).0 e)))
  | inr e ↦ elim (Bool-cases (equal (conn_name s i) (conn_name s j))) [
    | inl f ↦ ground (arith, conn_name_inj s i j short h k ((equal_iff _ _).0 f))
    | inr f ↦ f ∙ sym e
  ]
]
