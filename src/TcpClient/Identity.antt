-- ===== src/TcpClient/Identity.antt =====
-- Who a client is, in tcp/tcpclient.go: Ip, RealIp and Info, with the address that RecvMsg reads from a
-- proxy's head, and Ping. `show` is how fmt prints a number; the address of the other side, if there is
-- a connection, is the connection's.
use cc_be_chat_test.Common.{
  ℕ, ◌≡◌, ◌≢◌, refl, ap, sym, ◌∙◌, Bool, true, false, not, ◌⊎◌, inl, inr, Option-cases, Option,
  none, some, List, [], ◌∷◌, ◌++◌, get_or, get_elem?, All, split_on, split_on_first, split_on_alone,
  if◌then◌else◌, Outcome, ok, or_panic, ◌>>=◌,
}
use cc_be_chat_test.Delegate.{TcpClient}

abbrev pub colon : ℕ
colon = 58

-- "0.0.0.0"
abbrev pub no_ip : List ℕ
no_ip = 48 ∷ 46 ∷ 48 ∷ 46 ∷ 48 ∷ 46 ∷ 48 ∷ []

-- "-", " (in:", ",out:" and ")"
abbrev pub no_info : List ℕ
no_info = 45 ∷ []

abbrev pub in_text : List ℕ
in_text = 32 ∷ 40 ∷ 105 ∷ 110 ∷ 58 ∷ []

abbrev pub out_text : List ℕ
out_text = 44 ∷ 111 ∷ 117 ∷ 116 ∷ 58 ∷ []

abbrev pub close_text : List ℕ
close_text = 41 ∷ []

module _ (show : ℕ → List ℕ) where
  -- "%d.%d.%d.%d" of the four bytes.
  unfoldable pub dotted : List ℕ → List ℕ
  dotted [] = []
  dotted (b ∷ []) = show b
  dotted (b ∷ c ∷ bytes) = show b ++ (46 ∷ dotted (c ∷ bytes))

  unfoldable pub ip : {S : Type 0} → TcpClient S → Option (List ℕ) → List ℕ
  ip client remote = elim client.real_ip [
    | some bytes ↦ dotted bytes
    | none ↦ elim remote [ none ↦ no_ip | some addr ↦ get_or (split_on colon addr) 0 [] ]
  ]

  unfoldable pub real_ip : {S : Type 0} → TcpClient S → List ℕ
  real_ip client = elim client.real_ip [ some bytes ↦ dotted bytes | none ↦ no_ip ]

  -- An address without a colon would make it panic.
  unfoldable pub info : {E S : Type 0} → TcpClient S → Option (List ℕ) → Outcome E (List ℕ)
  info client none = ok no_info
  info client (some addr) = do
    port ← or_panic (get_elem? (split_on colon addr) 1)
    ok (
        ip client (some addr)
        ++ (colon ∷ port)
        ++ (in_text ++ show client.read_len ++ (out_text ++ show client.write_len ++ close_text)))

-- Ping: whether the address resolves, and whether the dial succeeds. When it does not, the connection
-- is nil, and `nil_close` is what its deferred Close comes to.
unfoldable pub ping : {E : Type 0} → Bool → Bool → Outcome E (Unit {0}) → Outcome E Bool
ping resolves dials nil_close =
    if not resolves then ok false else if dials then ok true else do _ ← nil_close; ok false

-- A client whose connection has an address of a host and a port without colons in them: its IP is the
-- host, or the address that a proxy has given for it, and its info is that, the port and what was
-- read and written.
pub info_lem :
    {E S : Type 0} (show : ℕ → List ℕ) (client : TcpClient S) (host port : List ℕ)
    → All (λ c. c ≢ colon) host
    → All (λ c. c ≢ colon) port
    → (info show {E = E} client (some (host ++ (colon ∷ port)))
        ≡ ok (
            ip show client (some (host ++ (colon ∷ port)))
            ++ (colon ∷ port)
            ++ (in_text
                ++ show client.read_len
                ++ (out_text ++ show client.write_len ++ close_text))))
      × (((client.real_ip ≡ none) × (ip show client (some (host ++ (colon ∷ port))) ≡ host))
          ⊎ (ip show client (some (host ++ (colon ∷ port))) ≡ real_ip show client))
unfolding info ip real_ip
info_lem show client host port h p =
    let pieces : split_on colon (host ++ (colon ∷ port)) ≡ host ∷ port ∷ [] =
      split_on_first colon host port h ∙ ap (λ rest. host ∷ rest) (split_on_alone colon port p) in
    (
      rw (pieces) refl,
      elim (Option-cases client.real_ip) [
        | inl none_given ↦ inl (
          none_given,
          ap (from_given (get_or (split_on colon (host ++ (colon ∷ port))) 0 [])) none_given
              ∙ ap (λ l. get_or l 0 []) pieces,
        )
        | inr (bytes, e) ↦ inr (
            ap (from_given (get_or (split_on colon (host ++ (colon ∷ port))) 0 [])) e
            ∙ sym (ap (from_given no_ip) e))
      ],
    )
  where
    from_given : List ℕ → Option (List ℕ) → List ℕ
    from_given other (some bytes) = dotted show bytes
    from_given other none = other
