-- ===== src/Safety/Examples.antt =====
-- The number of two concrete keys.
use shatters.Common.{◌≡◌}
use shatters.Crypto.Toy.{toy, block}
use shatters.Safety.{safety_number}
use shatters.Safety.Numbers.{safety_number_comm}

safety_number_comm_example :
    safety_number toy (block 1) (block 2) ≡ safety_number toy (block 2) (block 1)
safety_number_comm_example = safety_number_comm toy (block 1) (block 2)
