-- ===== src/Ssh/Tokens/System/Race.antt =====
-- What a sweep between the creation of a token's file and its writing leads to.
use device_cli_tool.Base.{ℕ, ◌<◌, Bool, false, Option, none, some, ◌==◌, ==_iff, ◌≡◌, refl, arith}
use device_cli_tool.Ssh.Tokens.{unreadable, Token, put}
use device_cli_tool.Ssh.Tokens.System.{
  waiting, created, holding, System, written, sweep, create, write, Reachable, start, after,
}

put-here : {A : Type 0} (f : ℕ → A) (i : ℕ) (value : A) → put f i value i ≡ value
put-here f i value = rw ((==_iff i i).1 refl) refl

put-there :
    {A : Type 0} (f : ℕ → A) (i j : ℕ) (value : A) → (i == j) ≡ false → put f i value j ≡ f j
put-there f i j value ne = rw ne refl

-- Of any two calls of `acquire`, in one process or in two, both can come to hold the same token, for any
-- limit and whatever processes live: the second call sweeps the file that the first has created and not
-- yet written, since it cannot be read, and creates it again.
pub both-holding :
    (alive : ℕ → Bool) (pid : ℕ → ℕ) (max_tokens a b i : ℕ)
    → i < max_tokens
    → (a == b) ≡ false
    → (s : System) × Reachable alive pid max_tokens false s
      × (s.status a ≡ holding i)
      × (s.status b ≡ holding i)
both-holding alive pid max_tokens a b i lt ne =
    let ne' : (b == a) ≡ false = ground (arith, ne) in
    let s0 : System = record { directory = λ i. none; status = λ a. waiting } in
    let file : ℕ → Option Token = λ c. some (record { creator = c; content = unreadable }) in
    let s1 : System = record {
      directory = put s0.directory i (file a);
      status = put s0.status a (created i);
    } in
    let s2 : System = record s1 { directory = put s1.directory i none } in
    let s3 : System = record {
      directory = put s2.directory i (file b);
      status = put s2.status b (created i);
    } in
    let s4 : System = record {
      directory = put s3.directory i (written a (pid a) (s3.directory i));
      status = put s3.status a (holding i);
    } in
    let s5 : System = record {
      directory = put s4.directory i (written b (pid b) (s4.directory i));
      status = put s4.status b (holding i);
    } in
    let r1 : Reachable alive pid max_tokens false s1 =
      after s0 s1 start (create a i s0 refl lt refl) in
    let r2 : Reachable alive pid max_tokens false s2 = after s1 s2 r1 (
      sweep b i (record { creator = a; content = unreadable }) s1 (put-here s0.directory i (file a))
        refl (λ e. cc)) in
    let r3 : Reachable alive pid max_tokens false s3 =
      after s2 s3 r2 (
        create b i s2 (put-there s0.status a b (created i) ne) lt (put-here s1.directory i none)) in
    let r4 : Reachable alive pid max_tokens false s4 =
      after s3 s4 r3 (write a i s3 (rw (ne', (==_iff a a).1 refl) refl)) in
    let r5 : Reachable alive pid max_tokens false s5 =
      after s4 s5 r4 (write b i s4 (rw (ne, (==_iff b b).1 refl) refl)) in
    (s5, r5, rw (ne', (==_iff a a).1 refl) refl, put-here s4.status b (holding i))
