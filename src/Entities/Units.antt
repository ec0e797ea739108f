-- ===== src/Entities/Units.antt =====
-- Texts, amounts and times, as the rows hold them.
use powergas.Base.{ℕ}

abbrev pub Text : Type 0
Text = ℕ

abbrev pub Cents : Type 0
Cents = ℕ

abbrev pub Time : Type 0
Time = ℕ
