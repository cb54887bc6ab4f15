-- ===== src/Benchctl/Entry/Guarded.antt =====
-- Who may work on the real cpuidle files.
use Prim.Native.String.{String}
use snoozer.Prelude.{
  ◌≡◌, refl, ◌∙◌, ◌⊎◌, inl, inr, Bool, true, false, ◌==◌, ==_iff, is_none, arith, Bool-cases,
}
use snoozer.Benchctl.Errors.{BenchError, preflight}
use snoozer.Benchctl.Host.{Actor, World, failed, Host, Action}
use snoozer.Benchctl.Run.{RunRequest}
use snoozer.Benchctl.Entry.{
  real_state_root, Shell, equal_paths, is_real_root, gate, sudo_run, for_client, launch,
}

-- The state directory is the fixed one, and the process is the hidden coordinator and runs as root.
abbrev pub MayControl : Actor → String → Bool → Type 0
MayControl process state_root coordinator =
    (equal_paths state_root real_state_root ≡ true) × (coordinator ≡ true) × (process.uid ≡ 0)

-- An operation is handed to sudo, on the real files and by a process that is not the coordinator; or it
-- is refused with an error and nothing is done; or it is done here, and then, if it is about the real
-- files, the process may.
pub gate_guarded :
    {A : Type 0} (sysfs_root state_root : String) (coordinator : Bool) (delegate body : Host A)
    (w : World)
    → ((gate sysfs_root state_root coordinator delegate body w ≡ delegate w)
        × (is_real_root sysfs_root ≡ true)
        × (coordinator ≡ false))
      ⊎ (((e : BenchError) × (gate sysfs_root state_root coordinator delegate body w
              ≡ (failed e, w)))
          ⊎ ((gate sysfs_root state_root coordinator delegate body w ≡ body w)
              × (is_real_root sysfs_root ≡ true → MayControl w.process state_root coordinator)))
unfolding gate
gate_guarded sysfs_root state_root coordinator delegate body w =
    elim (Bool-cases (is_real_root sysfs_root)) [
      | inr real ↦ inr (inr (rw real (rw real refl), (λ h. ground (arith, h, real))))
      | inl real ↦ elim (Bool-cases (equal_paths state_root real_state_root)) [
        | inr fixed ↦ inr (
            inl (
              preflight
                  "real sysfs operations require the fixed root-owned Benchctl state directory",
              rw real (rw fixed refl),
            ))
        | inl fixed ↦ elim (Bool-cases coordinator) [
          | inr hidden ↦ inl (rw real (rw fixed (rw hidden refl)), real, hidden)
          | inl hidden ↦ elim (Bool-cases (w.process.uid == 0)) [
            | inr root ↦ inr (
                inl (
                  preflight "real sysfs operations require the hidden privileged coordinator",
                  rw real (rw fixed (rw hidden (rw root (rw real refl)))),
                ))
            | inl root ↦ inr (
                inr (
                  rw real (rw fixed (rw hidden (rw root (rw real refl)))),
                  λ _. (fixed, hidden, (==_iff w.process.uid 0).0 root),
                ))
          ]
        ]
      ]
    ]

-- What a run on the real files needs besides: a client.
abbrev pub IsPrivileged : Actor → RunRequest → Type 0
IsPrivileged process request =
    MayControl process request.state_root request.coordinator × (is_none request.client_pid ≡ false)

for_client-cases :
    (coordinate : RunRequest → Action) (request : RunRequest) (w : World)
    → ((e : BenchError) × (for_client coordinate request w ≡ (failed e, w)))
      ⊎ ((for_client coordinate request w ≡ coordinate request w)
          × (is_real_root request.sysfs_root ≡ true → is_none request.client_pid ≡ false))
for_client-cases coordinate request w = elim (Bool-cases (is_real_root request.sysfs_root)) [
  | inr real ↦ inr (rw real refl, (λ h. ground (arith, h, real)))
  | inl real ↦ elim (Bool-cases (is_none request.client_pid)) [
    | inl client ↦ inl (
      preflight "privileged run coordinator requires its unprivileged client PID",
      rw real (rw client refl),
    )
    | inr client ↦ inr (rw real (rw client refl), λ _. client)
  ]
]

-- A request whose paths are resolved has one of three ends. It is handed to sudo, on the real files and
-- by a process that is not the coordinator; it is refused with an error and nothing is done; or it is
-- coordinated, and then, if it is about the real files, the process is privileged and the state
-- directory is the fixed one.
pub launch_guarded :
    (sh : Shell) (coordinate : RunRequest → Action) (request : RunRequest) (w : World)
    → ((launch sh coordinate request w ≡ sudo_run sh request w)
        × (is_real_root request.sysfs_root ≡ true)
        × (request.coordinator ≡ false))
      ⊎ (((e : BenchError) × (launch sh coordinate request w ≡ (failed e, w)))
          ⊎ ((launch sh coordinate request w ≡ coordinate request w)
              × (is_real_root request.sysfs_root ≡ true → IsPrivileged w.process request)))
unfolding launch
launch_guarded sh coordinate request w =
    elim (gate_guarded request.sysfs_root request.state_root request.coordinator
      (sudo_run sh request) (for_client coordinate request) w) [
        | inl delegated ↦ inl delegated
        | inr (inl refused) ↦ inr (inl refused)
        | inr (inr (here, may)) ↦ elim (for_client-cases coordinate request w) [
          | inl (e, refused) ↦ inr (inl (e, here ∙ refused))
          | inr (begun, client) ↦ inr (inr (here ∙ begun, λ real. (may real, client real)))
        ]
      ]
