-- ===== src/Release/Stored.antt =====
-- A client build that was fetched is what the next download patches and hands out
-- (`fetch_one_platform`, and `download_platform` of api/download.rs).
use visuara.Prelude.{◌≡◌, ◌⊎◌, sym, ◌∙◌, inl, inr}
use visuara.Downloads.{Files}
use visuara.Client.Disk.{Disk, exists, read}

-- The files as the download handlers see them.
abbrev pub files_of : Disk → Files
files_of d = record { exists = exists d; read = read d }

pub not_both : {A B : Type 0} {a : A} {b : B} {r : A ⊎ B} → r ≡ inl a → r ≡ inr b → ⊥
not_both p q = absurd (cc (sym p ∙ q))
