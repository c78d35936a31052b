-- ===== src/Server/Date.antt =====
-- The Date header: `rfc822_date` and `date_header_now` (Server.cc). The broken-down time is what
-- `gmtime` returns, the time in milliseconds that of the event loop.
use uni_event_http.Base.{
  ℕ, zero, suc, ◌+◌, ◌-◌, ◌*◌, ◌/◌, ◌%◌, ◌≤◌, ◌<◌, ◌≡◌, refl, ◌||◌, List, [], ◌∷◌, ◌++◌, ◌==◌, leb,
  arith, if◌then◌else◌, Option, none, some, inl, inr, ◌⊎◌, if_elim,
}

pub record DateTime : Type 0 where
  pub wday : ℕ
  pub mday : ℕ
  pub mon : ℕ
  pub year : ℕ
  pub hour : ℕ
  pub min : ℕ
  pub sec : ℕ

-- The tables of three letters; an index behind their end is no valid time.
unfoldable day_names : ℕ → List ℕ
day_names zero = b'S' ∷ b'u' ∷ b'n' ∷ []
day_names (suc zero) = b'M' ∷ b'o' ∷ b'n' ∷ []
day_names (suc (suc zero)) = b'T' ∷ b'u' ∷ b'e' ∷ []
day_names (suc (suc (suc zero))) = b'W' ∷ b'e' ∷ b'd' ∷ []
day_names (suc (suc (suc (suc zero)))) = b'T' ∷ b'h' ∷ b'u' ∷ []
day_names (suc (suc (suc (suc (suc zero))))) = b'F' ∷ b'r' ∷ b'i' ∷ []
day_names (suc (suc (suc (suc (suc (suc zero)))))) = b'S' ∷ b'a' ∷ b't' ∷ []
day_names _ = []

unfoldable month_names : ℕ → List ℕ
month_names zero = b'J' ∷ b'a' ∷ b'n' ∷ []
month_names (suc zero) = b'F' ∷ b'e' ∷ b'b' ∷ []
month_names (suc (suc zero)) = b'M' ∷ b'a' ∷ b'r' ∷ []
month_names (suc (suc (suc zero))) = b'A' ∷ b'p' ∷ b'r' ∷ []
month_names (suc (suc (suc (suc zero)))) = b'M' ∷ b'a' ∷ b'y' ∷ []
month_names (suc (suc (suc (suc (suc zero))))) = b'J' ∷ b'u' ∷ b'n' ∷ []
month_names (suc (suc (suc (suc (suc (suc zero)))))) = b'J' ∷ b'u' ∷ b'l' ∷ []
month_names (suc (suc (suc (suc (suc (suc (suc zero))))))) = b'A' ∷ b'u' ∷ b'g' ∷ []
month_names (suc (suc (suc (suc (suc (suc (suc (suc zero)))))))) = b'S' ∷ b'e' ∷ b'p' ∷ []
month_names (suc (suc (suc (suc (suc (suc (suc (suc (suc zero))))))))) = b'O' ∷ b'c' ∷ b't' ∷ []
month_names (suc (suc (suc (suc (suc (suc (suc (suc (suc (suc zero)))))))))) =
    b'N' ∷ b'o' ∷ b'v' ∷ []
month_names (suc (suc (suc (suc (suc (suc (suc (suc (suc (suc (suc zero))))))))))) =
    b'D' ∷ b'e' ∷ b'c' ∷ []
month_names _ = []

abbrev two_digits : ℕ → List ℕ
two_digits n = (n / 10 + b'0') ∷ (n % 10 + b'0') ∷ []

abbrev four_digits : ℕ → List ℕ
four_digits n =
    (n / 1000 + b'0') ∷ (n % 1000 / 100 + b'0') ∷ (n % 100 / 10 + b'0') ∷ (n % 10 + b'0') ∷ []

abbrev gmt : List ℕ
gmt = b' ' ∷ b'G' ∷ b'M' ∷ b'T' ∷ []

pub rfc822_date : DateTime → List ℕ
rfc822_date dt =
    day_names dt.wday
    ++ b','
      ∷ b' '
      ∷ (two_digits dt.mday
          ++ b' '
            ∷ (month_names dt.mon
                ++ b' '
                  ∷ (four_digits dt.year
                      ++ b' '
                        ∷ (two_digits dt.hour
                            ++ b':' ∷ (two_digits dt.min ++ b':' ∷ (two_digits dt.sec ++ gmt))))))

-- The time at which the header's text was made, 0 for never, and the text.
pub record DateHeader : Type 0 where
  pub time : ℕ
  pub text : List ℕ

-- `_loop->now() - 1000` wraps around at 64 bits; `fresh` is the text for the time of the call.
pub date_header_now : ℕ → List ℕ → DateHeader → DateHeader
date_header_now now fresh d =
    if d.time == 0 || leb d.time ((now + 18446744073709551616 - 1000) % 18446744073709551616)
    then record { time = now; text = fresh }
    else d

-- On a clock of 64 bits that does not run backwards, the header that a response gets was made less than
-- a second before, and is either the text for the time of the call or the unchanged header of before.
pub date_header_now_fresh :
    (now : ℕ) (fresh : List ℕ) (d : DateHeader)
    → now < 18446744073709551616
    → d.time ≤ now
    → let e = date_header_now now fresh d in
      (e.time ≤ now) × (now < e.time + 1000) × ((e ≡ record { time = now; text = fresh }) ⊎ (e ≡ d))
unfolding date_header_now
date_header_now_fresh now fresh d b h = (ground arith, ground arith, made_or_kept)
  where
    made_or_kept :
        (date_header_now now fresh d ≡ record { time = now; text = fresh })
        ⊎ (date_header_now now fresh d ≡ d)
    made_or_kept =
        if_elim (λ e. (e ≡ record { time = now; text = fresh }) ⊎ (e ≡ d))
          (d.time == 0 || leb d.time ((now + 18446744073709551616 - 1000) % 18446744073709551616)) _
          _ (λ _. inl refl) (λ _. inr refl)

-- Reading a header back: two or four digits, and the place of a name in its table.
abbrev digit : ℕ → ℕ
digit b = b - b'0'

-- The first two letters tell the days apart, and all three the months.
day_of : ℕ → ℕ → ℕ
day_of a b =
    if a == b'S'
    then (if b == b'u' then 0 else 6)
    else if a == b'M'
    then 1
    else if a == b'T'
    then (if b == b'u' then 2 else 4)
    else if a == b'W'
    then 3
    else 5

month_of : ℕ → ℕ → ℕ → ℕ
month_of a b c =
    if a == b'J'
    then (if b == b'a' then 0 else if c == b'n' then 5 else 6)
    else if a == b'F'
    then 1
    else if a == b'M'
    then (if c == b'r' then 2 else 4)
    else if a == b'A'
    then (if b == b'p' then 3 else 7)
    else if a == b'S'
    then 8
    else if a == b'O'
    then 9
    else if a == b'N'
    then 10
    else 11

-- The numbers in the places that RFC 822 gives them.
abbrev numbers : List ℕ → ℕ → ℕ → List ℕ → Option DateTime
numbers (d0 ∷ d1 ∷ rest) wday mon
      (y0 ∷ y1 ∷ y2 ∷ y3 ∷ s3 ∷ h0 ∷ h1 ∷ c1 ∷ n0 ∷ n1 ∷ c2 ∷ e0 ∷ e1 ∷ g) =
    some (record {
      wday = wday;
      mday = digit d0 * 10 + digit d1;
      mon = mon;
      year = digit y0 * 1000 + digit y1 * 100 + digit y2 * 10 + digit y3;
      hour = digit h0 * 10 + digit h1;
      min = digit n0 * 10 + digit n1;
      sec = digit e0 * 10 + digit e1;
    })
numbers _ _ _ _ = none

pub read_date : List ℕ → Option DateTime
read_date (w0 ∷ w1 ∷ w2 ∷ c ∷ s0 ∷ d0 ∷ d1 ∷ s1 ∷ m0 ∷ m1 ∷ m2 ∷ s2 ∷ years) =
    numbers (d0 ∷ d1 ∷ []) (day_of w0 w1) (month_of m0 m1 m2) years
read_date _ = none

-- A time that the header has room for.
pub record IsDateTime (dt : DateTime) : Type 0 where
  pub wday : dt.wday < 7
  pub mday : dt.mday < 100
  pub mon : dt.mon < 12
  pub year : dt.year < 10000
  pub hour : dt.hour < 100
  pub min : dt.min < 100
  pub sec : dt.sec < 100

two_digits_lem : (n : ℕ) → n < 100 → digit (n / 10 + b'0') * 10 + digit (n % 10 + b'0') ≡ n
two_digits_lem n h = omega arith

four_digits_lem :
    (n : ℕ)
    → n < 10000
    → digit (n / 1000 + b'0') * 1000
        + digit (n % 1000 / 100 + b'0') * 100
        + digit (n % 100 / 10 + b'0') * 10
        + digit (n % 10 + b'0')
      ≡ n
four_digits_lem n h = omega arith

-- The three letters of a name, from which it is read back.
Named : (ℕ → List ℕ) → (ℕ → ℕ → ℕ → ℕ) → ℕ → Type 0
Named names read k = (a : ℕ) × (b : ℕ) × (c : ℕ) × (names k ≡ a ∷ b ∷ c ∷ []) × (read a b c ≡ k)

day_names-Named : (k : ℕ) → k < 7 → Named day_names (λ a b _. day_of a b) k
unfolding Named day_names day_of
day_names-Named zero h = (b'S', b'u', b'n', refl, refl)
day_names-Named (suc zero) h = (b'M', b'o', b'n', refl, refl)
day_names-Named (suc (suc zero)) h = (b'T', b'u', b'e', refl, refl)
day_names-Named (suc (suc (suc zero))) h = (b'W', b'e', b'd', refl, refl)
day_names-Named (suc (suc (suc (suc zero)))) h = (b'T', b'h', b'u', refl, refl)
day_names-Named (suc (suc (suc (suc (suc zero))))) h = (b'F', b'r', b'i', refl, refl)
day_names-Named (suc (suc (suc (suc (suc (suc zero)))))) h = (b'S', b'a', b't', refl, refl)
day_names-Named (suc (suc (suc (suc (suc (suc (suc n))))))) h = absurd (omega arith)

month_names-Named : (k : ℕ) → k < 12 → Named month_names month_of k
unfolding Named month_names month_of
month_names-Named zero h = (b'J', b'a', b'n', refl, refl)
month_names-Named (suc zero) h = (b'F', b'e', b'b', refl, refl)
month_names-Named (suc (suc zero)) h = (b'M', b'a', b'r', refl, refl)
month_names-Named (suc (suc (suc zero))) h = (b'A', b'p', b'r', refl, refl)
month_names-Named (suc (suc (suc (suc zero)))) h = (b'M', b'a', b'y', refl, refl)
month_names-Named (suc (suc (suc (suc (suc zero))))) h = (b'J', b'u', b'n', refl, refl)
month_names-Named (suc (suc (suc (suc (suc (suc zero)))))) h = (b'J', b'u', b'l', refl, refl)
month_names-Named (suc (suc (suc (suc (suc (suc (suc zero))))))) h = (b'A', b'u', b'g', refl, refl)
month_names-Named (suc (suc (suc (suc (suc (suc (suc (suc zero)))))))) h =
    (b'S', b'e', b'p', refl, refl)
month_names-Named (suc (suc (suc (suc (suc (suc (suc (suc (suc zero))))))))) h =
    (b'O', b'c', b't', refl, refl)
month_names-Named (suc (suc (suc (suc (suc (suc (suc (suc (suc (suc zero)))))))))) h =
    (b'N', b'o', b'v', refl, refl)
month_names-Named (suc (suc (suc (suc (suc (suc (suc (suc (suc (suc (suc zero))))))))))) h =
    (b'D', b'e', b'c', refl, refl)
month_names-Named (suc (suc (suc (suc (suc (suc (suc (suc (suc (suc (suc (suc n)))))))))))) h =
    absurd (omega arith)

-- A Date header of a time whose day of the week and month are in their tables, and whose other parts
-- have at most two digits, the year four, reads back as that time.
pub read_date-rfc822_date : (dt : DateTime) → IsDateTime dt → read_date (rfc822_date dt) ≡ some dt
unfolding read_date rfc822_date Named
read_date-rfc822_date dt v =
    let (a, b, c, d, e) = day_names-Named dt.wday v.wday in
    let (f, g, h, m, n) = month_names-Named dt.mon v.mon in
    rw (d, m)
      (ground (
        arith,
        e,
        n,
        two_digits_lem dt.mday v.mday,
        two_digits_lem dt.hour v.hour,
        two_digits_lem dt.min v.min,
        two_digits_lem dt.sec v.sec,
        four_digits_lem dt.year v.year,
      ))
