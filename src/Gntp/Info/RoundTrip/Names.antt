-- ===== src/Gntp/Info/RoundTrip/Names.antt =====
-- The names in an information line: message types and algorithms.
use go_notify.Base.{
  ◌≡◌, ◌≢◌, inl, inr, refl, true, [], ◌++◌, Option, arith, Bool-cases, Bytes, codes, bytes_eq,
  bytes_eq_iff,
}
use go_notify.Go.Strings.{to_upper}
use go_notify.Gntp.Result.{ok}
use go_notify.Gntp.Crypto.{
  HashAlgorithm, md5, sha1, sha256, sha512, other_hash, EncryptionAlgorithm, none_enc, des, tdes,
  aes, other_enc, Block, Crypto, new_hash, new_cipher, is_encrypted,
}
use go_notify.Go.Strings.{is_space}
use go_notify.Go.Strings.Cut.{Lacks, StartsInk}
use go_notify.Gntp.Info.{is_message_type}
use go_notify.Gntp.Info.Print.{enc_name, hash_name}
use go_notify.Gntp.Info.Parse.{enc_of_name, hash_of_name}

message_type-induction :
    (P : Bytes → Type 0) (t : Bytes)
    → P (codes "REGISTER")
    → P (codes "NOTIFY")
    → P (codes "-OK")
    → P (codes "-ERROR")
    → P (codes "-CALLBACK")
    → is_message_type t ≡ true
    → P t
unfolding is_message_type
message_type-induction P t register notify ok_ error callback h =
    elim (Bool-cases (bytes_eq t (codes "REGISTER"))) [
      | inl e ↦ rw ((bytes_eq_iff t _).0 e) register
      | inr n1 ↦ elim (Bool-cases (bytes_eq t (codes "NOTIFY"))) [
        | inl e ↦ rw ((bytes_eq_iff t _).0 e) notify
        | inr n2 ↦ elim (Bool-cases (bytes_eq t (codes "-OK"))) [
          | inl e ↦ rw ((bytes_eq_iff t _).0 e) ok_
          | inr n3 ↦ elim (Bool-cases (bytes_eq t (codes "-ERROR"))) [
            | inl e ↦ rw ((bytes_eq_iff t _).0 e) error
            | inr n4 ↦
                rw ((bytes_eq_iff t (codes "-CALLBACK")).0 (simp (n1, n2, n3, n4) at h)) callback
          ]
        ]
      ]
    ]

-- A word of the line: in capitals, with no blank and no end of line, and not empty.
pub record IsWord (t : Bytes) : Type 0 where
  pub capitals : to_upper t ≡ t
  pub no_blank : Lacks b' ' t
  pub one_line : Lacks b'\n' t
  pub first : (s : Bytes) → StartsInk (t ++ s)

pub message_type-IsWord : (t : Bytes) → is_message_type t ≡ true → IsWord t
unfolding to_upper is_space
message_type-IsWord t h =
    message_type-induction IsWord t
      (record {
        capitals = refl;
        no_blank = omega arith;
        one_line = omega arith;
        first = λ s. refl;
      })
      (record {
        capitals = refl;
        no_blank = omega arith;
        one_line = omega arith;
        first = λ s. refl;
      })
      (record {
        capitals = refl;
        no_blank = omega arith;
        one_line = omega arith;
        first = λ s. refl;
      })
      (record {
        capitals = refl;
        no_blank = omega arith;
        one_line = omega arith;
        first = λ s. refl;
      })
      (record {
        capitals = refl;
        no_blank = omega arith;
        one_line = omega arith;
        first = λ s. refl;
      })
      h

-- The name of an algorithm: a word with no colon that is read back.
pub record IsName (t : Bytes) : Type 0 where
  pub word : IsWord t
  pub no_colon : Lacks b':' t
  pub at_colon : (s : Bytes) → t ++ s ≢ []

pub enc_name-IsName :
    (a : EncryptionAlgorithm) (k : Bytes) {b : Option Block}
    → is_encrypted a ≡ true
    → new_cipher a k ≡ ok b
    → IsName (enc_name a) × (enc_of_name (enc_name a) ≡ ok a)
unfolding enc_name enc_of_name new_cipher to_upper is_space
enc_name-IsName none_enc k on e = cc
enc_name-IsName des k on e = (
  record {
    word = record {
      capitals = refl;
      no_blank = omega arith;
      one_line = omega arith;
      first = λ s. refl;
    };
    no_colon = omega arith;
    at_colon = λ s e. cc;
  },
  refl,
)
enc_name-IsName tdes k on e = (
  record {
    word = record {
      capitals = refl;
      no_blank = omega arith;
      one_line = omega arith;
      first = λ s. refl;
    };
    no_colon = omega arith;
    at_colon = λ s e. cc;
  },
  refl,
)
enc_name-IsName aes k on e = (
  record {
    word = record {
      capitals = refl;
      no_blank = omega arith;
      one_line = omega arith;
      first = λ s. refl;
    };
    no_colon = omega arith;
    at_colon = λ s e. cc;
  },
  refl,
)
enc_name-IsName (other_enc n) k on e = cc

pub hash_name-IsName :
    (c : Crypto) (h : HashAlgorithm) {f : Bytes → Bytes}
    → new_hash c h ≡ ok f
    → IsName (hash_name h) × (hash_of_name (hash_name h) ≡ h)
unfolding hash_name hash_of_name new_hash to_upper is_space
hash_name-IsName c md5 e = (
  record {
    word = record {
      capitals = refl;
      no_blank = omega arith;
      one_line = omega arith;
      first = λ s. refl;
    };
    no_colon = omega arith;
    at_colon = λ s e. cc;
  },
  refl,
)
hash_name-IsName c sha1 e = (
  record {
    word = record {
      capitals = refl;
      no_blank = omega arith;
      one_line = omega arith;
      first = λ s. refl;
    };
    no_colon = omega arith;
    at_colon = λ s e. cc;
  },
  refl,
)
hash_name-IsName c sha256 e = (
  record {
    word = record {
      capitals = refl;
      no_blank = omega arith;
      one_line = omega arith;
      first = λ s. refl;
    };
    no_colon = omega arith;
    at_colon = λ s e. cc;
  },
  refl,
)
hash_name-IsName c sha512 e = (
  record {
    word = record {
      capitals = refl;
      no_blank = omega arith;
      one_line = omega arith;
      first = λ s. refl;
    };
    no_colon = omega arith;
    at_colon = λ s e. cc;
  },
  refl,
)
hash_name-IsName c (other_hash n) e = cc
