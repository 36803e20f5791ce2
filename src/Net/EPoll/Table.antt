-- ===== src/Net/EPoll/Table.antt =====
-- A concrete epoll for the witnesses of the loop: what its manual page says can hold.
use trantor_net.Base.{ℕ, refl, true, Option, none, some, ◌==◌, if◌then◌else◌}
use trantor_net.Net.EPoll.{Kernel}

-- An epoll whose interest list is a function.
abbrev pub epoll_table : Kernel
epoll_table = record {
  State = ℕ → Option ℕ;
  interest = λ s j. s j;
  accepts = λ s fd ev. true;
  ctl_add = λ s fd ev j. if fd == j then elim (s j) [ none ↦ some ev | some e ↦ some e ] else s j;
  ctl_mod = λ s fd ev j. if fd == j then elim (s j) [ none ↦ none | some e ↦ some ev ] else s j;
  ctl_del = λ s fd j. if fd == j then none else s j;
  interest-ctl_add = λ s fd ev j. refl;
  interest-ctl_mod = λ s fd ev j. refl;
  interest-ctl_del = λ s fd j. refl;
}
